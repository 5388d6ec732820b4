-- ===== src/Rpc/Remota/Parada.antt =====
-- A call that blocks the token server, and the service after it.
use unifesp_sd.Base.{ℕ, ◌≡◌, ◌≢◌, none, some, List, ◌∷◌}
use unifesp_sd.Base.Int.{◌≤ℤ◌, i32}
use unifesp_sd.Fila.{Sfila}
use unifesp_sd.Rpc.Mensagem.{RequestIn, Release}
use unifesp_sd.Rpc.Servidor.{Sitem, sitem_chave, Servidor}
use unifesp_sd.Rpc.Servidor.Invariante.{IsDez}
use unifesp_sd.Rpc.Servidor.Espera.{bloqueio}
use unifesp_sd.Rpc.Codigo.Ida.{CabeRequest}
use unifesp_sd.Rpcgen.{Xdr}
use unifesp_sd.Rpcgen.Bytes.{Leis}
use unifesp_sd.Rpcgen.Ponteiro.{Clnt}
use unifesp_sd.Rpcgen.Rede.{Processo, ouvindo, preso, Rede}
use unifesp_sd.Rpc.Remota.{server_cent_1, req_1, rel_1}
use unifesp_sd.Rpc.Remota.Rodada.{req_1-presa, preso-nada}

-- A client that asks over the network while another is first in the queue, with a `tempo` (as `int`)
-- no later, gets NULL for an answer, and so does every client for every later call, of either
-- procedure: the one that holds the token cannot give it back. It is so on a well-formed queue of ten
-- places, for a request whose numbers the format holds, and whatever number of turns the server's
-- loop is given.
pub servico_parado :
    {X : Type 0} {escrita leitura : List ℕ → X} (xdr : Xdr X)
    (L : Leis escrita leitura xdr.xdr_long) (I : Leis escrita leitura xdr.xdr_int) (k : ℕ)
    {clnt : Clnt (Processo Servidor) X} (rede : Rede escrita leitura (server_cent_1 xdr k) clnt)
    (s : Servidor) (req : RequestIn) (f : Sfila Sitem) (x : Sitem) (xs : List Sitem)
    → CabeRequest escrita leitura xdr.xdr_long L req
    → s.fila ≡ some f
    → IsDez f
    → f.head ≡ x ∷ xs
    → x.pid ≢ req.pid_c
    → x.tempo ≤ℤ i32 req.tempo_c
    → (t : Servidor) × (req_1 xdr clnt (ouvindo s) req ≡ (preso t, none))
      × ((req' : RequestIn) (rel : Release)
          → (req_1 xdr clnt (preso t) req' ≡ (preso t, none))
            × (rel_1 xdr clnt (preso t) rel ≡ (preso t, none)))
servico_parado xdr L I k rede s req f x xs c q d e other late =
    let (t, presa) = bloqueio s req f x xs q d e other late in
    (t, req_1-presa xdr L I k rede s t req c (presa k), preso-nada xdr L I k rede t)
