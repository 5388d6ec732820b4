-- ===== src/Rdict.antt =====
-- The dictionary service whose sources LAB07-SD/thread-RPC.c quotes: rdict_srp.c (the dictionary),
-- rdict_sif.c and rdict_svc.c (the procedures and the thread that serves a call), and
-- rdict_client.c (the reader of commands and the client's loop).
pub mod Dicionario
pub mod Atende
pub mod Leitura
pub mod Sessao
pub mod Concorrente
mod Exemplos
