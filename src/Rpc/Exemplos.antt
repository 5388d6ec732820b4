-- ===== src/Rpc/Exemplos.antt =====
-- The server and the client of LAB07-SD/backup on concrete calls, and the theorems at them.
use unifesp_sd.Base.{ℕ, true, false, ◌≡◌, refl, some, none, [], ◌∷◌, arith}
use unifesp_sd.Base.Int.{pos, ◌<ℤ◌, trunca}
use unifesp_sd.Fila.{Sfila, init, procura, esta_na_fila}
use unifesp_sd.Rpc.Mensagem.{RequestIn, Release, ReplyOut}
use unifesp_sd.Rpc.Servidor.{
  Sitem, sitem_chave, Servidor, inicio, aberta, req_1_svc, rel_1_svc, presa, retorna,
}
use unifesp_sd.Rpc.Servidor.Invariante.{IsDez, IsServidor, Atendida, req_1_svc-Atendida}
use unifesp_sd.Rpc.Servidor.Espera.{bloqueio, fura_fila}
use unifesp_sd.Rpc.Servidor.Devolucao.{entradas, sem_primeira, rel_1_svc_lem}
use unifesp_sd.Rpc.Cliente.{Cliente, executa}
use unifesp_sd.Rpc.Cliente.Chamadas.{Rodadas, executa-Rodadas}
use unifesp_sd.Rpc.Codigo.{xdr_request_in, xdr_release, xdr_reply_out}
use unifesp_sd.Rpc.Codigo.Ida.{filtros-Volta}
use unifesp_sd.Rpcgen.Bytes.{Volta}
use unifesp_sd.Rpcgen.Fluxo.{leis, escrevendo, lendo, byte_long}
use unifesp_sd.Rpc.Despacho.Registro.{
  Ambiente, registra, registra_rdict, registra_tempo, registra_central, registra_sem_mutex,
  registra_square, serve, mains_servem,
}
use unifesp_sd.Rpc.Despacho.{Pedido, server_cent_1}
use unifesp_sd.Rpc.Despacho.Seguro.{Segura, server_cent_1-Segura}
use unifesp_sd.Rpc.Ciclo.{ciclos, recurso_apos, Terminam, ciclos-Terminam, token_dobra}

-- Client 7 holds the token and 8 waits.
abbrev pub ocupada : Sfila Sitem
ocupada = record {
  tamanho = 2;
  n = 10;
  head = record { pid = pos 7; tempo = pos 3 } ∷ record { pid = pos 8; tempo = pos 5 } ∷ [];
}

abbrev pub servidor : Servidor
servidor = record { tempo = pos 6; fila = some ocupada; token = pos 4 }

abbrev pub parado : Servidor
parado = record servidor { fila = none }

pub ocupada-IsDez : IsDez ocupada
unfolding procura
ocupada-IsDez = record {
  fila = record {
    conta = refl;
    cabe = omega arith;
    ordem = omega arith;
    distintos = (refl, (refl, tt));
  };
  lugares = refl;
}

abbrev pub tarde : RequestIn
tarde = record { pid_c = pos 9; tempo_c = pos 4 }

abbrev cedo : RequestIn
cedo = record { pid_c = pos 9; tempo_c = pos 2 }

abbrev pub devolve : Release
devolve = record { pid_c = pos 7; tempo_c = pos 8; recurso_n = pos 8 }

abbrev pub cliente : Cliente
cliente = record { pid = pos 7; tempo = pos 0 }

req_1_svc-Atendida_example : Atendida servidor tarde (req_1_svc 3 servidor tarde)
req_1_svc-Atendida_example = req_1_svc-Atendida 2 servidor tarde ocupada-IsDez

bloqueio_teste : (t : Servidor) × ((k : ℕ) → req_1_svc k servidor tarde ≡ presa t)
unfolding trunca
bloqueio_teste =
    bloqueio servidor tarde ocupada (record { pid = pos 7; tempo = pos 3 }) _ refl ocupada-IsDez
      refl (λ e. ground arith) (omega arith)

fura_fila_example :
    (t : Servidor) × (r : ReplyOut) × (req_1_svc 1 servidor cedo ≡ retorna t r)
    × (r.recurso ≡ pos 4)
unfolding trunca procura esta_na_fila
fura_fila_example =
    fura_fila servidor cedo ocupada (record { pid = pos 7; tempo = pos 3 }) _ 0 refl ocupada-IsDez
      refl (omega arith) refl refl (omega arith)

rel_1_svc_lem_teste :
    ((rel_1_svc servidor devolve).0.token ≡ pos 8)
    × IsServidor (rel_1_svc servidor devolve).0.fila
    × (entradas (rel_1_svc servidor devolve).0.fila ≡ sem_primeira ocupada.head)
    × (pos 6 <ℤ (rel_1_svc servidor devolve).0.tempo)
    × (pos 8 <ℤ (rel_1_svc servidor devolve).0.tempo)
rel_1_svc_lem_teste =
    rel_1_svc_lem servidor devolve ocupada-IsDez
      (record { acima = omega arith; abaixo = omega arith })
      (record { acima = omega arith; abaixo = omega arith })

ciclos-Terminam_teste : Terminam (recurso_apos 3 (pos 4)) (ciclos 1 3 (parado, cliente))
unfolding trunca init aberta
ciclos-Terminam_teste = ciclos-Terminam 0 3 parado cliente refl refl

token_dobra_teste : Terminam (pos 16) (ciclos 1 4 (inicio, cliente))
unfolding trunca
token_dobra_teste = token_dobra 0 3 cliente refl (omega arith)

abbrev resposta : ReplyOut
resposta = record { pid_c = pos 7; tempo_s = pos 6; recurso = pos 4 }

executa-Rodadas_teste :
    Rodadas
      (pos 7)
      (resposta ∷ resposta ∷ [])
      (executa cliente ((some resposta, true) ∷ (some resposta, false) ∷ [])).0
executa-Rodadas_teste =
    executa-Rodadas cliente ((some resposta, true) ∷ (some resposta, false) ∷ [])

abbrev pedido : Pedido
pedido = record {
  rq_proc = 1;
  req_1_arg = some cedo;
  rel_1_arg = none;
  envio_ok = true;
  free_ok = true;
}

server_cent_1-Segura_example : Segura (server_cent_1 1 servidor pedido)
server_cent_1-Segura_example = server_cent_1-Segura 0 servidor pedido ocupada-IsDez

filtros-Volta_example :
    Volta escrevendo lendo (xdr_request_in byte_long) cedo
    × Volta escrevendo lendo (xdr_release byte_long) devolve
    × Volta escrevendo lendo (xdr_reply_out byte_long) resposta
filtros-Volta_example =
    filtros-Volta escrevendo lendo byte_long leis cedo devolve resposta (omega arith, omega arith)
      (omega arith, omega arith, omega arith) (omega arith, omega arith, omega arith)

abbrev ambiente : Ambiente
ambiente = record {
  svcudp_create = true;
  registra_udp = true;
  svctcp_create = true;
  registra_tcp = true;
}

mains_servem_teste :
    (serve (registra ambiente).0 ≡ true)
    × (serve (registra_rdict ambiente).0 ≡ true)
    × (serve (registra_tempo ambiente).0 ≡ true)
    × (serve (registra_central ambiente).0 ≡ true)
    × (serve (registra_sem_mutex ambiente).0 ≡ true)
    × (serve (registra_square ambiente).0 ≡ false)
mains_servem_teste = mains_servem ambiente
