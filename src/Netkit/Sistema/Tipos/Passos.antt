-- ===== src/Netkit/Sistema/Tipos/Passos.antt =====
-- Every variable and every message of the system of LAB2-NETKIT keeps to its C type.
use unifesp_sd.Netkit.Servidor.{Servidor}
use unifesp_sd.Netkit.Servidor
use unifesp_sd.Netkit.Cliente.{Cliente}
use unifesp_sd.Netkit.Cliente
use unifesp_sd.Netkit.Sistema.{Sistema}
use unifesp_sd.Netkit.Sistema.Tipos.{Tipos}
