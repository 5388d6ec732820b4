-- ===== src/Central/Exemplos.antt =====
-- The calls of LAB07-SD/server_cent.x over a network of streams, with procedures that count the
-- requests, give a value out and never take one back.
use unifesp_sd.Base.{ℕ, suc, some, arith}
use unifesp_sd.Base.Int.{pos}
use unifesp_sd.Rpcgen.Fluxo.{Fluxo, byte_long, leis}
use unifesp_sd.Rpcgen.Ponteiro.{retorna, presa, Clnt}
use unifesp_sd.Rpcgen.Rede.{Processo, ouvindo, Entregue}
use unifesp_sd.Rpcgen.RedeBytes.{clnt_bytes, rede_bytes}
use unifesp_sd.Central.{Request, Release, Procedimentos, server_cent_1, req_1, rep_1, rel_1}
use unifesp_sd.Central.Chamadas.{chamadas-Entregues}

abbrev procedimentos : Procedimentos ℕ
procedimentos = record {
  req_1_svc = λ req w. retorna (suc w) (some req);
  rep_1_svc =
      λ req w. retorna w (some (record { pid_c = req.pid_c; tempo_s = pos w; recurso = pos 3 }));
  rel_1_svc = λ rel w. presa w;
}

abbrev clnt : Clnt (Processo ℕ) Fluxo
clnt = clnt_bytes (server_cent_1 byte_long procedimentos)

abbrev pedido : Request
pedido = record { pid_c = pos 9; tempo_c = pos 4 }

abbrev devolucao : Release
devolucao = record { pid_c = pos 9; tempo_c = pos 5; recurso_n = pos 6 }

chamadas-Entregues_example :
    Entregue (procedimentos.req_1_svc pedido 2) (req_1 byte_long clnt (ouvindo 2) pedido)
    × Entregue (procedimentos.rep_1_svc pedido 2) (rep_1 byte_long clnt (ouvindo 2) pedido)
    × Entregue (procedimentos.rel_1_svc devolucao 2) (rel_1 byte_long clnt (ouvindo 2) devolucao)
chamadas-Entregues_example =
    chamadas-Entregues byte_long leis procedimentos
      (rede_bytes (server_cent_1 byte_long procedimentos)) 2 pedido devolucao
      (omega arith, omega arith) (omega arith, omega arith, omega arith) (omega arith, omega arith)
      (omega arith, omega arith, omega arith) tt
