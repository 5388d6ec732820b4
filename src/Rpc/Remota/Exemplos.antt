-- ===== src/Rpc/Remota/Exemplos.antt =====
-- Calls to the token server over a network of streams, and the theorems at them.
use unifesp_sd.Base.{◌^◌, ◌≡◌, refl, none, arith}
use unifesp_sd.Base.Int.{negsuc, pos, ◌+ℤ◌, trunca}
use unifesp_sd.Rpc.Mensagem.{RequestIn, Release}
use unifesp_sd.Fila.{init}
use unifesp_sd.Rpc.Servidor.{Servidor, inicio, aberta}
use unifesp_sd.Rpc.Ciclo.{IsLivre}
use unifesp_sd.Rpc.Cliente.{Cliente, retorna_com, continua, pede, usa, novo_recurso}
use unifesp_sd.Rpc.Exemplos.{ocupada, ocupada-IsDez, servidor, parado, tarde, cliente}
use unifesp_sd.Rpcgen.Fluxo.{Fluxo, xdr, xdr_palavra, leis_palavra, leis, escrevendo, lendo}
use unifesp_sd.Rpcgen.Ponteiro.{Clnt}
use unifesp_sd.Rpcgen.Rede.{Processo, ouvindo, preso, Rede}
use unifesp_sd.Rpcgen.RedeBytes.{clnt_bytes, rede_bytes}
use unifesp_sd.Rpc.Remota.{server_cent_1, req_1, rel_1, rodada, rodadas}
use unifesp_sd.Rpc.Remota.Rodada.{Rodou, rodada-Rodou}
use unifesp_sd.Rpc.Remota.Dobra.{rodadas-Terminam}
use unifesp_sd.Rpc.Remota.Encontro.{encontro, encontro_para}
use unifesp_sd.Rpc.Remota.Parada.{servico_parado}

abbrev clnt : Clnt (Processo Servidor) Fluxo
clnt = clnt_bytes (server_cent_1 xdr 3)

abbrev rede : Rede escrevendo lendo (server_cent_1 xdr 3) clnt
rede = rede_bytes (server_cent_1 xdr 3)

abbrev livre : Servidor
livre = record parado { token = pos 2 }

rodada-Rodou_example : Rodou 3 livre cliente (rodada xdr clnt (ouvindo livre) cliente)
unfolding ◌+ℤ◌ trunca pede usa novo_recurso
rodada-Rodou_example = rodada-Rodou xdr leis leis 2 rede livre cliente tt (
  (omega arith, omega arith),
  (omega arith, omega arith, omega arith),
  (omega arith, omega arith, omega arith),
  omega arith,
)

servico_parado_teste :
    (t : Servidor) × (req_1 xdr clnt (ouvindo servidor) tarde ≡ (preso t, none))
    × ((req' : RequestIn) (rel : Release)
        → (req_1 xdr clnt (preso t) req' ≡ (preso t, none))
          × (rel_1 xdr clnt (preso t) rel ≡ (preso t, none)))
unfolding trunca
servico_parado_teste =
    servico_parado xdr leis leis 3 rede servidor tarde ocupada
      (record { pid = pos 7; tempo = pos 3 }) _ (omega arith, omega arith) refl ocupada-IsDez refl
      (λ e. ground arith) (omega arith)

abbrev palavras : Clnt (Processo Servidor) Fluxo
palavras = clnt_bytes (server_cent_1 xdr_palavra 1)

-- Thirty rounds from the start of server and client.
rodadas-Terminam_example :
    (s : Servidor) × (c : Cliente) × (rodadas xdr_palavra palavras 30 (ouvindo inicio) cliente
      ≡ (ouvindo s, continua c))
    × IsLivre s
    × (s.token ≡ pos (2 ^ 30))
unfolding inicio aberta init novo_recurso trunca ◌+ℤ◌
rodadas-Terminam_example =
    rodadas-Terminam xdr_palavra leis_palavra leis_palavra (λ z h. h)
      (record { acima = omega arith; abaixo = omega arith }) 0
      (rede_bytes (server_cent_1 xdr_palavra 1)) 30 0 inicio cliente refl
      (record { acima = omega arith; abaixo = omega arith })
      (record { acima = omega arith; abaixo = omega arith })
      (record { desde = omega arith; ate = omega arith })
      (record { desde = omega arith; ate = omega arith }) (omega arith)

-- Clients 7 and 9 from the start.
encontro_para_example :
    (t : Servidor) × (encontro xdr_palavra palavras
        (ouvindo inicio)
        cliente
        (record { pid = pos 9; tempo = pos 0 })
      ≡ ((preso t, retorna_com (negsuc 0)), retorna_com (negsuc 0)))
unfolding inicio aberta init
encontro_para_example =
    encontro_para xdr_palavra leis_palavra leis_palavra (λ z h. h) 0
      (rede_bytes (server_cent_1 xdr_palavra 1)) inicio cliente
      (record { pid = pos 9; tempo = pos 0 }) 0 refl
      (record { acima = omega arith; abaixo = omega arith })
      (record { acima = omega arith; abaixo = omega arith }) (λ e. ground arith)
      (record { acima = omega arith; abaixo = omega arith })
      (record { desde = omega arith; ate = omega arith })
      (record { desde = omega arith; ate = omega arith })
      (record { desde = omega arith; ate = omega arith }) (omega arith) (omega arith)
