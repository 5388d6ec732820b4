-- ===== src/SemMutex/Exemplos.antt =====
-- The procedures on the heap on a queue of two nodes, and the theorems there.
use unifesp_sd.Base.{◌≢◌, refl, none, some, List, [], ◌∷◌, arith, ◌==◌, if◌then◌else◌}
use unifesp_sd.Base.Int.{pos, negsuc, ◌+ℤ◌, trunca}
use unifesp_sd.Fila
use unifesp_sd.Lista.{Lista, init, insere, encaixa, remove_item, esta_na_fila, procura}
use unifesp_sd.Lista.Memoria.{nulo, No, Memoria, Retorna, malloc, free, le, muda, grava}
use unifesp_sd.Lista.Cadeia.{Celula, celula, no_de, fim, elo}
use unifesp_sd.Rpc.Exemplos.{tarde, devolve}
use unifesp_sd.Rpc.Servidor
use unifesp_sd.Rpc.Servidor.Invariante.{IsServidor}
use unifesp_sd.SemMutex.{
  Servidor, inicio, aberta, aguarda, concede, req_1_svc, relogio, retira, rel_1_svc,
}
use unifesp_sd.SemMutex.Corrida.{
  Pedido, pede, devolve_token, Saldo, percorre, Corre, parte, atendeu, devolveu, Igual, Segura,
  Corre-inicio,
}
use unifesp_sd.SemMutex.Refina.{
  abstrai, com_fila, Mesmo, Refinou, req_1_svc-Refinou, Devolvida, rel_1_svc-Devolvida,
}

abbrev lixo : No
lixo = no_de (negsuc 4) (pos 77) 13

-- Client 7 is first, client 8 second.
abbrev memoria : Memoria
memoria a =
    if a == 5
    then some (no_de (pos 7) (pos 3) 9)
    else (if a == 9 then some (no_de (pos 8) (pos 6) nulo) else none)

abbrev fila : Lista
fila = record { tamanho = 2; n = 10; head = 5 }

abbrev celulas : List Celula
celulas = celula 5 (pos 7) (pos 3) ∷ celula 9 (pos 8) (pos 6) ∷ []

abbrev servidor : Servidor
servidor = record { tempo = pos 6; fila = some fila; token = pos 4 }

abbrev abstrato : Servidor.Servidor
abstrato = record { tempo = pos 6; fila = some (abstrai fila celulas); token = pos 4 }

mesmo : Mesmo memoria servidor abstrato
mesmo = record {
  tempo = refl;
  token = refl;
  fila = com_fila (record {
    nos =
        elo (record { valido = λ e. absurd (omega arith); la = refl }) refl
          (elo (record { valido = λ e. absurd (omega arith); la = refl }) refl fim);
    conta = refl;
  });
}

valida : IsServidor abstrato.fila
unfolding Fila.procura
valida = record {
  fila = record {
    conta = refl;
    cabe = omega arith;
    ordem = omega arith;
    distintos = (refl, (refl, tt));
  };
  lugares = refl;
}

quatro_valido : 4 ≢ nulo
quatro_valido e = absurd (omega arith)

req_1_svc-Refinou_teste :
    Retorna
      (λ r g. Refinou g r (Servidor.req_1_svc 3 abstrato tarde))
      (req_1_svc 3 4 lixo servidor tarde memoria)
req_1_svc-Refinou_teste =
    req_1_svc-Refinou 3 memoria servidor abstrato tarde 4 lixo mesmo valida quatro_valido refl

rel_1_svc-Devolvida_teste :
    Retorna
      (Devolvida memoria 4 servidor abstrato devolve)
      (rel_1_svc 4 lixo servidor devolve memoria)
rel_1_svc-Devolvida_teste =
    rel_1_svc-Devolvida memoria servidor abstrato devolve 4 lixo mesmo quatro_valido refl

-- Client 7 asks and gives back; then client 8 asks.
abbrev pedidos : List Pedido
pedidos =
    pede (record { pid_c = pos 7; tempo_c = pos 1 })
    ∷ devolve_token (record { pid_c = pos 7; tempo_c = pos 4; recurso_n = pos 2 })
    ∷ pede (record { pid_c = pos 8; tempo_c = pos 1 })
    ∷ []

corrida : (h : Memoria) × (x : Saldo Servidor) × Corre 1 inicio (λ a. none) pedidos x h
unfolding inicio req_1_svc rel_1_svc aberta aguarda concede retira relogio insere remove_item init
    malloc free le muda grava esta_na_fila procura ◌+ℤ◌ trunca encaixa
corrida = (
  _,
  _,
  atendeu 4 lixo quatro_valido refl refl (
      devolveu 6 lixo (λ e. absurd (omega arith)) refl refl
        (atendeu 9 lixo (λ e. absurd (omega arith)) refl refl (parte _ _))),
)

Corre-inicio_example :
    Igual corrida.0 corrida.1 (percorre 1 pedidos Servidor.inicio)
    × Segura 1 corrida.1.1.0 corrida.0 4 lixo
unfolding corrida
Corre-inicio_example = Corre-inicio lixo corrida.2 quatro_valido refl
