-- ===== src/Netkit/Sistema/Pendencia/Exemplos.antt =====
-- The first round of a system whose clients have different PIDs, and the theorems there.
use unifesp_sd.Base.{ℕ, ◌+◌, ◌*◌, ◌≤◌, ◌≡◌, ◌≢◌, refl, false, [], ◌∷◌, arith, length, ◌==◌}
use unifesp_sd.Base.Int.{ℤ, pos, negsuc, trunca, ◌+ℤ◌, resto}
use unifesp_sd.Netkit.Mensagem.{Request, Datagrama}
use unifesp_sd.Netkit.Servidor
use unifesp_sd.Fila.{init}
use unifesp_sd.Netkit.Servidor.Invariante.{IsPid}
use unifesp_sd.Netkit.Cliente.{Cliente, pede, esperando}
use unifesp_sd.Netkit.Cliente
use unifesp_sd.Netkit.Sistema.{Sistema, troca, de_cliente, aqui}
use unifesp_sd.Netkit.Sistema
use unifesp_sd.Netkit.Sistema.Ficha.{partida}
use unifesp_sd.Netkit.Sistema.Pendencia.{pendencias, espera_de}
use unifesp_sd.Netkit.Sistema.Pendencia.Espera.{
  Folgada, parada, adiante, Folgada-Alcanca, uma_pendencia, ninguem_esquecido, sem_impasse,
}
use unifesp_sd.Netkit.Sistema.Pendencia.Vez.{Chega, vez_vem}
use unifesp_sd.Netkit.Sistema.Pendencia.Poucos.{Calados, Poucos, comeco, passo, todos_servidos}

abbrev lixo : Request
lixo = record { rec = pos 0; cod = pos 0; tempo = pos 0; pid = pos 0 }

abbrev pids : ℕ → ℤ
pids i = pos (256 * i + 7)

pids-IsPid : (i : ℕ) → IsPid (pids i)
unfolding trunca
pids-IsPid i = ground arith

pids-ne-zero : (i : ℕ) → pids i ≢ pos 0
pids-ne-zero i e = absurd (ground arith)

pids-distintos : (i k : ℕ) → pids i ≡ pids k → i ≡ k
pids-distintos i k e = ground arith

abbrev inicial : Sistema
inicial = partida lixo lixo lixo pids (λ i. lixo) (λ i. lixo)

-- The request of client 0.
abbrev pedido : Datagrama
pedido = record {
  tamanho = 16;
  corpo = record { rec = negsuc 0; cod = pos 10; tempo = pos 1; pid = pos 7 };
}

abbrev pedinte : Cliente
pedinte = record {
  fase = esperando;
  pid = pos 7;
  tempo = pos 1;
  aguardar = pos 0;
  req = pedido.corpo;
  resp = lixo;
}

abbrev pediu : Sistema
pediu = record inicial {
  clientes = troca inicial.clientes 0 pedinte;
  ao_servidor = de_cliente 0 pedido ∷ [];
}

Folgada-pediu : Folgada inicial pediu
unfolding Cliente.itera pede Cliente.inicio trunca ◌+ℤ◌ resto Servidor.inicio init
Folgada-pediu = adiante parada (omega arith) (Sistema.pede 0 refl refl)

vazia : length pediu.servidor.fila.head ≤ 9
unfolding Servidor.inicio init
vazia = omega arith

uma_pendencia_example : pendencias 0 pediu ≤ espera_de 0 pediu
uma_pendencia_example =
    uma_pendencia lixo lixo lixo pids (λ i. lixo) (λ i. lixo) pids-IsPid pids-ne-zero 0
      (Folgada-Alcanca Folgada-pediu)

ninguem_esquecido_example : pendencias 0 pediu ≡ espera_de 0 pediu
ninguem_esquecido_example =
    ninguem_esquecido lixo lixo lixo pids (λ i. lixo) (λ i. lixo) pids-IsPid pids-ne-zero
      pids-distintos 0 Folgada-pediu

sem_impasse_teste : 1 ≤ length pediu.ao_servidor + length pediu.aos_clientes
sem_impasse_teste =
    sem_impasse lixo lixo lixo pids (λ i. lixo) (λ i. lixo) pids-IsPid pids-ne-zero pids-distintos 0
      Folgada-pediu refl

vez_vem_example : Chega pediu 0
vez_vem_example =
    vez_vem lixo lixo lixo pids (λ i. lixo) (λ i. lixo) pids-IsPid pids-ne-zero pediu 0
      pids-distintos Folgada-pediu (omega (arith, vazia)) refl

-- Only client 0 asks.
calados : Calados 1 pediu
unfolding Cliente.inicio
calados i l = let other : (0 == i) ≡ false = ground arith in rw other refl

Poucos-pediu : Poucos 1 inicial pediu
unfolding Cliente.itera pede Cliente.inicio trunca ◌+ℤ◌ resto Servidor.inicio init
Poucos-pediu = passo comeco (Sistema.pede 0 refl refl) calados

todos_servidos_example :
    (length pediu.servidor.fila.head ≤ 1)
    × ((i : ℕ) → (pediu.clientes i).fase ≡ esperando → Chega pediu i)
todos_servidos_example =
    todos_servidos lixo lixo lixo pids (λ i. lixo) (λ i. lixo) pids-IsPid pids-ne-zero 1
      (omega arith) pids-distintos Poucos-pediu
