-- ===== src/Bpf/Tests.antt =====
-- An input of the bound on CPU masks.
