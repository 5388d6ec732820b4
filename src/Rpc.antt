-- ===== src/Rpc.antt =====
-- The token server over Sun RPC of LAB07-SD/backup: the messages, the procedures of the server, the
-- client's loop, and the two together. The server answers one call at a time.
pub mod Mensagem
pub mod Servidor
pub mod Cliente
pub mod Ciclo
pub mod Codigo
pub mod Despacho
pub mod Remota
pub mod Exemplos
