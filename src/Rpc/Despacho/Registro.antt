-- ===== src/Rpc/Despacho/Registro.antt =====
-- The `main` of LAB07-SD/backup/server_cent_svc.c, which registers the dispatcher with the RPC
-- library, and those of rdict_svc.c in LAB07-SD/thread-RPC.c and of the two services of
-- LAB07-SD/AExemplo-RPC, which rpcgen wrote in the same way. The outcomes of the library's calls are inputs.
use mathlib.Core.Bool.{and-true, and-false}
use unifesp_sd.Base.{
  ℕ, ◌≡◌, Bool, true, false, ◌&&◌, List, [], ◌∷◌, if◌then◌else◌, Bool-cases, inl, inr, ◌∙◌,
}

pub record Ambiente : Type 0 where
  pub svcudp_create : Bool
  pub registra_udp : Bool
  pub svctcp_create : Bool
  pub registra_tcp : Bool

-- The calls to the library, and the messages to `stderr`.
pub data Acao : Type 0 where
  pmap_unset cria_udp svc_register_udp cria_tcp svc_register_tcp svc_run : Acao
  cannot_create_udp unable_udp cannot_create_tcp unable_tcp svc_run_returned : Acao

abbrev depois_tcp : List Acao → Ambiente → List Acao
depois_tcp fim a =
    if a.svctcp_create
    then svc_register_tcp ∷ (if a.registra_tcp then fim else unable_tcp ∷ [])
    else cannot_create_tcp ∷ []

abbrev depois_udp : List Acao → Ambiente → List Acao
depois_udp fim a =
    if a.svcudp_create
    then svc_register_udp
      ∷ (if a.registra_udp then cria_tcp ∷ depois_tcp fim a else unable_udp ∷ [])
    else cannot_create_udp ∷ []

-- What `main` does until it ends with `exit(1)`.
unfoldable pub registra : Ambiente → List Acao × ℕ
registra a = (pmap_unset ∷ cria_udp ∷ depois_udp (svc_run ∷ svc_run_returned ∷ []) a, 1)

-- The `main` of rdict_svc.c.
unfoldable pub registra_rdict : Ambiente → List Acao × ℕ
unfolding registra
registra_rdict = registra

-- The `main` of AExemplo-RPC/tempo_svc.c.
unfoldable pub registra_tempo : Ambiente → List Acao × ℕ
unfolding registra
registra_tempo = registra

-- The `main` of LAB07-SD/server_cent_svc.c.
unfoldable pub registra_central : Ambiente → List Acao × ℕ
unfolding registra
registra_central = registra

-- The `main` of backup2-sem-M/server_cent_svc.c.
unfoldable pub registra_sem_mutex : Ambiente → List Acao × ℕ
unfolding registra
registra_sem_mutex = registra

-- The `main` of AExemplo-RPC/Another-Ex/square_svc.c, where the call of `svc_run` is a comment.
unfoldable pub registra_square : Ambiente → List Acao × ℕ
registra_square a = (pmap_unset ∷ cria_udp ∷ depois_udp (svc_run_returned ∷ []) a, 1)

-- Does a `main` come to serve?
abbrev pub serve : List Acao → Bool
serve [] = false
serve (svc_run ∷ xs) = true
serve (_ ∷ xs) = serve xs

-- Did the calls that `main` tests succeed?
abbrev pub registrado : Ambiente → Bool
registrado a = a.svcudp_create && (a.registra_udp && (a.svctcp_create && a.registra_tcp))

depois_udp-serve :
    (fim : List Acao) (a : Ambiente) → serve (depois_udp fim a) ≡ (registrado a && serve fim)
depois_udp-serve fim a = elim (Bool-cases a.svcudp_create) [
  | inl e ↦ rw e (elim (Bool-cases a.registra_udp) [
    | inl f ↦ rw f (elim (Bool-cases a.svctcp_create) [
      | inl g ↦ rw g (elim (Bool-cases a.registra_tcp) [ inl h ↦ rw h | inr h ↦ rw h ])
      | inr g ↦ rw g
    ])
    | inr f ↦ rw f
  ])
  | inr e ↦ rw e
]

-- The `main` of each token server, of the dictionary and of the time service comes to serve exactly
-- if the library's four calls succeed. The `main` of the square service never serves: it registers
-- both transports, prints "svc_run returned" and ends.
pub mains_servem :
    (a : Ambiente)
    → (serve (registra a).0 ≡ registrado a)
      × (serve (registra_rdict a).0 ≡ registrado a)
      × (serve (registra_tempo a).0 ≡ registrado a)
      × (serve (registra_central a).0 ≡ registrado a)
      × (serve (registra_sem_mutex a).0 ≡ registrado a)
      × (serve (registra_square a).0 ≡ false)
unfolding registra registra_rdict registra_tempo registra_central registra_sem_mutex registra_square
mains_servem a =
    let f = λ (fim : List Acao). depois_udp-serve fim a in
    (
      f _ ∙ and-true _,
      f _ ∙ and-true _,
      f _ ∙ and-true _,
      f _ ∙ and-true _,
      f _ ∙ and-true _,
      f _ ∙ and-false _,
    )
