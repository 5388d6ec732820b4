-- ===== src/Netkit/Sistema/Exemplos.antt =====
-- The first rounds of a system, and the theorems there.
use unifesp_sd.Base.{ℕ, ◌+◌, ◌≤◌, ◌≡◌, ◌≢◌, refl, false, List, [], ◌∷◌, ◌++◌, map, arith}
use unifesp_sd.Base.Int.{pos, negsuc, trunca, ◌+ℤ◌, resto}
use unifesp_sd.Fila.{init}
use unifesp_sd.Netkit.Mensagem.{Request, Datagrama, recebe, Passo, segue, termina, falha, enviadas}
use unifesp_sd.Netkit.Servidor.{
  Servidor, Envio, relogio, recebida, processa, trata_request, responde,
}
use unifesp_sd.Netkit.Servidor
use unifesp_sd.Netkit.Servidor.Invariante.{livre, IsPid}
use unifesp_sd.Netkit.Cliente.{Cliente, pede, espera, trata_reply, pedindo, esperando}
use unifesp_sd.Netkit.Cliente
use unifesp_sd.Netkit.Coordenador.Refina.{entrega}
use unifesp_sd.Netkit.Coordenador.Corrida.{Recado}
use unifesp_sd.Netkit.Sistema.{
  Sistema, troca, de_cliente, de_servidor, ao_pedir, ao_receber, Anda, Alcanca, aqui, mais, soma,
  peso_devolucao, peso_resposta, fichas,
}
use unifesp_sd.Netkit.Sistema
use unifesp_sd.Netkit.Sistema.Ficha.{partida, uma_ficha, Prossegue, rodada_segue, resposta_perdida}
use unifesp_sd.Netkit.Sistema.Somas.{passos}
use unifesp_sd.Netkit.Sistema.Somas.Passos.{Definida, rodada-Definida}
use unifesp_sd.Netkit.Sistema.Valor.{usos, TemValor}
use unifesp_sd.Netkit.Sistema.Valor.Usos.{conta_usos}
use unifesp_sd.Netkit.Sistema.Tipos.{Tipos}

abbrev lixo : Request
lixo = record { rec = pos 0; cod = pos 0; tempo = pos 0; pid = pos 0 }

abbrev inicial : Sistema
inicial = partida lixo lixo lixo (λ i. pos 7) (λ i. lixo) (λ i. lixo)

sete-IsPid : (i : ℕ) → IsPid (pos 7)
unfolding trunca
sete-IsPid i = refl

pid-ne-zero : (i : ℕ) → pos 7 ≢ pos 0
pid-ne-zero i e = absurd (ground arith)

-- The request of client 0, and the reply.
abbrev pedido : Datagrama
pedido = record {
  tamanho = 16;
  corpo = record { rec = negsuc 0; cod = pos 10; tempo = pos 1; pid = pos 7 };
}

abbrev servidor_apos : Passo (Servidor ℕ) (Envio ℕ) → Servidor ℕ
servidor_apos (segue s ms) = s
servidor_apos (termina c ms) = Servidor.inicio lixo lixo lixo
servidor_apos (falha ms) = Servidor.inicio lixo lixo lixo

abbrev turno : Passo (Servidor ℕ) (Envio ℕ)
turno = Servidor.itera (inicial.servidor) (entrega pedido 0 16)

abbrev pedinte : Cliente
pedinte = record {
  fase = esperando;
  pid = pos 7;
  tempo = pos 1;
  aguardar = pos 0;
  req = pedido.corpo;
  resp = lixo;
}

abbrev pediu : Sistema
pediu = record inicial {
  clientes = troca inicial.clientes 0 pedinte;
  ao_servidor = de_cliente 0 pedido ∷ [];
}

abbrev atendeu : Sistema
atendeu = record pediu {
  servidor = servidor_apos turno;
  ao_servidor = [];
  aos_clientes = map de_servidor (enviadas turno);
}

Alcanca-pediu : Alcanca inicial 0 pediu
unfolding Cliente.itera pede Cliente.inicio trunca ◌+ℤ◌ resto
Alcanca-pediu = mais aqui (Sistema.pede 0 refl refl) refl

Alcanca-atendeu : Alcanca inicial 0 atendeu
unfolding Servidor.itera Servidor.inicio init recebida recebe relogio processa Servidor.despacha
    trata_request responde trunca ◌+ℤ◌ resto
Alcanca-atendeu = mais Alcanca-pediu (Sistema.serve pedido 0 16 [] [] refl refl) refl

uma_ficha_example : (fichas atendeu ≤ 1) × (1 ≤ fichas atendeu + 0)
uma_ficha_example =
    uma_ficha lixo lixo lixo (λ i. pos 7) (λ i. lixo) (λ i. lixo) sete-IsPid pid-ne-zero
      Alcanca-atendeu

rodada_segue_teste :
    ((d : Datagrama) (i k : ℕ) (xs ys : List (Recado ℕ))
      → pediu.ao_servidor ≡ xs ++ (d, i, k) ∷ ys
      → Prossegue (Servidor.itera pediu.servidor (entrega d i k)))
    × ((i : ℕ)
        → (pediu.clientes i).fase ≡ pedindo
        → Prossegue (Cliente.itera (pediu.clientes i) ao_pedir))
    × ((i : ℕ) (d : Datagrama) (xs ys : List (ℕ × Datagrama))
        → pediu.aos_clientes ≡ xs ++ (i, d) ∷ ys
        → (pediu.clientes i).fase ≡ esperando
        → Prossegue (Cliente.itera (pediu.clientes i) (ao_receber d)))
rodada_segue_teste =
    rodada_segue lixo lixo lixo (λ i. pos 7) (λ i. lixo) (λ i. lixo) sete-IsPid pid-ne-zero
      Alcanca-pediu

-- What the server sent: the ACK, and the token.
abbrev recibo : Datagrama
recibo = record {
  tamanho = 16;
  corpo = record { rec = pos 0; cod = pos 40; tempo = pos 2; pid = pos 7 };
}

abbrev concessao : Datagrama
concessao = record {
  tamanho = 8;
  corpo = record { rec = pos 30; cod = pos 30; tempo = pos 3; pid = pos 7 };
}

enviadas_turno : atendeu.aos_clientes ≡ (0, recibo) ∷ (0, concessao) ∷ []
unfolding Servidor.itera Servidor.inicio init recebida recebe relogio processa Servidor.despacha
    trata_request responde trunca ◌+ℤ◌ resto
enviadas_turno = refl

resposta_perdida_example :
    (livre atendeu.servidor ≡ false)
    × (soma (λ r. peso_devolucao r.0) atendeu.ao_servidor ≡ 0)
    × (soma {A = ℕ × Datagrama} (λ r. peso_resposta r.1) ((0, recibo) ∷ []) ≡ 0)
resposta_perdida_example =
    resposta_perdida lixo lixo lixo (λ i. pos 7) (λ i. lixo) (λ i. lixo) sete-IsPid pid-ne-zero 0
      concessao ((0, recibo) ∷ []) [] Alcanca-atendeu enviadas_turno refl aqui

-- Client 0 receives the token, and gives it back.
abbrev cliente_apos : Passo Cliente Datagrama → Cliente
cliente_apos (segue c ms) = c
cliente_apos (termina c ms) = pedinte
cliente_apos (falha ms) = pedinte

abbrev rodada : Passo Cliente Datagrama
rodada = Cliente.itera (atendeu.clientes 0) (ao_receber concessao)

abbrev devolveu : Sistema
devolveu = record atendeu {
  clientes = troca atendeu.clientes 0 (cliente_apos rodada);
  ao_servidor = map (de_cliente 0) (enviadas rodada);
  aos_clientes = (0, recibo) ∷ [];
}

segue-rodada : rodada ≡ segue (cliente_apos rodada) (enviadas rodada)
unfolding Cliente.itera espera Cliente.despacha trata_reply recebe trunca ◌+ℤ◌ resto
segue-rodada = refl

Alcanca-devolveu : Alcanca inicial 0 devolveu
Alcanca-devolveu =
    mais Alcanca-atendeu
      (Sistema.recebe 0 concessao ((0, recibo) ∷ []) [] enviadas_turno refl segue-rodada) refl

um_uso : usos Alcanca-devolveu ≡ 1
unfolding Alcanca-devolveu Alcanca-atendeu Alcanca-pediu
um_uso = refl

conta_usos_example : TemValor (pos (30 + usos Alcanca-devolveu)) devolveu
conta_usos_example =
    conta_usos lixo lixo lixo (λ i. pos 7) (λ i. lixo) (λ i. lixo) sete-IsPid pid-ne-zero
      Alcanca-devolveu (omega (arith, um_uso))

-- The token is on its way to client 0.
dois_passos : passos Alcanca-atendeu ≡ 2
unfolding Alcanca-atendeu Alcanca-pediu
dois_passos = refl

rodada-Definida_example : Definida atendeu
rodada-Definida_example =
    rodada-Definida lixo lixo lixo (λ i. pos 7) (λ i. lixo) (λ i. lixo) sete-IsPid pid-ne-zero
      Alcanca-atendeu (omega (arith, dois_passos))
