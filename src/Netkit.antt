-- ===== src/Netkit.antt =====
-- The token protocol over UDP of LAB2-NETKIT: the messages and the datagrams that carry them, the
-- server with its queue, and the client.
pub mod Mensagem
pub mod Servidor
pub mod Coordenador
pub mod Sistema
pub mod Cliente
mod Exemplos
