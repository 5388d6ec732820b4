-- ===== src/Netkit/Exemplos.antt =====
-- Runs of the server and the client on concrete messages, and the theorems at them. The clients'
-- addresses are numbers.
use unifesp_sd.Base.{ℕ, ◌+◌, ◌≤◌, ◌≡◌, refl, inl, inr, true, some, [], ◌∷◌, arith}
use unifesp_sd.Base.Int.{ℤ, pos, negsuc, ◌<ℤ◌, trunca, ◌==ℤ◌}
use unifesp_sd.Fila.{procura, insere, remove_item}
use unifesp_sd.Fila.Invariante.{Inserido, insere-Inserido, Removido, remove_item-Removido}
use unifesp_sd.Netkit.Mensagem.{
  Request, Datagrama, enviadas, request_token, release_token, reply_allow, ack, sizeof_ponteiro,
}
use unifesp_sd.Netkit.Servidor.{Servidor, Sitem, sitem_chave, itera, executa, relogio, main}
use unifesp_sd.Netkit.Servidor.Invariante.{IsServidor, IsInteira, itera-Mantida, Mantida}
use unifesp_sd.Netkit.Servidor.Relogio.{relogio_cresce}
use unifesp_sd.Netkit.Servidor.Exclusao.{respostas, exclusao}
use unifesp_sd.Netkit.Servidor
use unifesp_sd.Netkit.Servidor.Somas.{SomasDe}
use unifesp_sd.Netkit.Servidor.Principal.{Segura, main-Segura}
use unifesp_sd.Netkit.Coordenador.{concessao}
use unifesp_sd.Netkit.Coordenador.Refina.{Refina, evento, concedidas, entrega, itera-Refina}
use unifesp_sd.Netkit.Coordenador.Corrida.{
  entregas, eventos, Percorre, executa-Percorre, fila_servida,
}
use unifesp_sd.Netkit.Coordenador.Falhas.{IsConfuso, sem_exclusao, Esquece, pedido_perdido}
use unifesp_sd.Netkit.Cliente.{Cliente}
use unifesp_sd.Netkit.Cliente
use unifesp_sd.Netkit.Cliente.Envios.{conta, devolucoes_limitadas, Devolve, espera-Devolve}

abbrev lixo : Request
lixo = record { rec = pos 0; cod = pos 0; tempo = pos 0; pid = pos 0 }

abbrev mensagem : ℤ → ℤ → ℕ → ℤ → Datagrama
mensagem rec cod tempo pid = record {
  tamanho = 16;
  corpo = record { rec = rec; cod = cod; tempo = pos tempo; pid = pid };
}

abbrev pedido_de : ℕ → ℕ → Datagrama
pedido_de pid tempo = mensagem (negsuc 0) request_token tempo (pos pid)

abbrev volta_de : ℕ → ℕ → Datagrama
volta_de pid rec = mensagem (pos rec) release_token 9 (pos pid)

abbrev inicial : Servidor ℕ
inicial = record {
  tempo = pos 0;
  fila = record { tamanho = 0; n = 10; head = [] };
  token = record { flag = negsuc 0; valor = pos 30 };
  req = lixo;
  ack_buf = lixo;
  rep = lixo;
}

abbrev item : ℕ → ℕ → Sitem ℕ
item pid tempo = record { pid = pos pid; tempo = pos tempo; addrlen = 16; caddr = 100 + pid }

-- Client 7 holds the token; 8 and 9 wait.
abbrev ocupada : Servidor ℕ
ocupada = record inicial {
  fila = record { tamanho = 2; n = 10; head = item 8 2 ∷ item 9 5 ∷ [] };
  token = record { flag = pos 7; valor = pos 30 };
}

ocupada-IsServidor : IsServidor ocupada
unfolding trunca procura
ocupada-IsServidor = record {
  fila = record {
    conta = refl;
    cabe = omega arith;
    ordem = omega arith;
    distintos = (refl, (refl, tt));
  };
  lugares = refl;
  relogio = record { acima = omega arith; abaixo = omega arith };
  espera = inl refl;
  pids = (refl, (refl, tt));
}

inicial-IsServidor : IsServidor inicial
inicial-IsServidor = record {
  fila = record { conta = refl; cabe = omega arith; ordem = tt; distintos = tt };
  lugares = refl;
  relogio = record { acima = omega arith; abaixo = omega arith };
  espera = inr refl;
  pids = tt;
}

pedido-IsInteira : IsInteira (pedido_de 6 3)
unfolding trunca
pedido-IsInteira = record {
  tamanho = omega arith;
  tempo = record { acima = omega arith; abaixo = omega arith };
  pid = refl;
}

volta-IsInteira : IsInteira (volta_de 7 31)
unfolding trunca
volta-IsInteira = record {
  tamanho = omega arith;
  tempo = record { acima = omega arith; abaixo = omega arith };
  pid = refl;
}

-- The queue.
insere-Inserido_example : Inserido ocupada.fila (item 6 3) (insere ocupada.fila (item 6 3))
insere-Inserido_example = insere-Inserido ocupada.fila (item 6 3) ocupada-IsServidor.fila

remove_item-Removido_teste : Removido ocupada.fila (remove_item ocupada.fila)
remove_item-Removido_teste = remove_item-Removido ocupada.fila ocupada-IsServidor.fila

-- The server.
itera-Mantida_teste : Mantida (itera ocupada (entrega (pedido_de 6 3) 106 16))
itera-Mantida_teste =
    itera-Mantida ocupada (entrega (pedido_de 6 3) 106 16) ocupada-IsServidor pedido-IsInteira

relogio_cresce_teste : (pos 4 <ℤ relogio (pos 4) (pos 9)) × (pos 9 <ℤ relogio (pos 4) (pos 9))
relogio_cresce_teste =
    relogio_cresce (pos 4) (pos 9) (record { acima = omega arith; abaixo = omega arith })
      (record { acima = omega arith; abaixo = omega arith }) (omega arith) (omega arith)

exclusao_example :
    respostas (enviadas (executa inicial (entregas ((pedido_de 6 3, 106, 16) ∷ [])))) + 0 ≤ 0 + 1
exclusao_example =
    exclusao inicial (entregas ((pedido_de 6 3, 106, 16) ∷ [])) inicial-IsServidor
      (pedido-IsInteira, tt)

main-Segura_example :
    Segura {C = ℕ} 0 (main 2 true true lixo lixo lixo (entregas ((pedido_de 6 3, 106, 16) ∷ [])))
    × SomasDe {C = ℕ} (Servidor.inicio lixo lixo lixo) (entregas ((pedido_de 6 3, 106, 16) ∷ []))
main-Segura_example =
    main-Segura 2 true true lixo lixo lixo (entregas ((pedido_de 6 3, 106, 16) ∷ [])) (
      record {
        inteira = pedido-IsInteira;
        tempo = record { acima = omega arith; abaixo = omega arith };
      },
      tt,
    )

itera-Refina_teste :
    Refina ocupada
      (evento (volta_de 7 31).corpo 107 16)
      (itera ocupada (entrega (volta_de 7 31) 107 16))
itera-Refina_teste = itera-Refina ocupada (volta_de 7 31) 107 16 ocupada-IsServidor volta-IsInteira

executa-Percorre_example :
    Percorre ocupada
      (eventos ((pedido_de 6 3, 106, 16) ∷ (volta_de 7 31, 107, 16) ∷ []))
      (executa ocupada (entregas ((pedido_de 6 3, 106, 16) ∷ (volta_de 7 31, 107, 16) ∷ [])))
executa-Percorre_example =
    executa-Percorre ocupada ((pedido_de 6 3, 106, 16) ∷ (volta_de 7 31, 107, 16) ∷ [])
      ocupada-IsServidor (pedido-IsInteira, (volta-IsInteira, tt))

fila_servida_example :
    concedidas (enviadas (executa ocupada (entregas ((volta_de 7 31, 107, 16) ∷ []))))
    ≡ concessao (item 8 2) (pos 31) ∷ []
fila_servida_example =
    fila_servida ocupada ((volta_de 7 31, 107, 16) ∷ []) ocupada-IsServidor
      ((refl, volta-IsInteira), tt) (omega arith)

pedido_de-IsConfuso :
    (pid : ℕ) → ((trunca 7 (pos pid) ==ℤ negsuc 0) ≡ true) → IsConfuso (pedido_de pid 1)
pedido_de-IsConfuso pid e = record { tamanho = omega arith; cod = refl; pid = e }

-- Clients 255 and 511 hold the token at once.
sem_exclusao_example :
    respostas (
      enviadas
        (executa inicial (entregas ((pedido_de 255 1, 1, 16) ∷ (pedido_de 511 1, 2, 16) ∷ []))))
    ≡ 2
unfolding trunca
sem_exclusao_example =
    sem_exclusao inicial ((pedido_de 255 1, 1, 16) ∷ (pedido_de 511 1, 2, 16) ∷ []) refl
      (pedido_de-IsConfuso 255 refl, (pedido_de-IsConfuso 511 refl, tt))

-- Ten clients wait.
abbrev lotada : Servidor ℕ
lotada = record ocupada {
  fila = record {
    tamanho = 10;
    n = 10;
    head =
        item 11 1
        ∷ item 12 1
        ∷ item 13 1
        ∷ item 14 1
        ∷ item 15 1
        ∷ item 16 1
        ∷ item 17 1
        ∷ item 18 1
        ∷ item 19 1
        ∷ item 20 1
        ∷ [];
  };
}

lotada-IsServidor : IsServidor lotada
unfolding trunca procura
lotada-IsServidor = record {
  fila = record {
    conta = refl;
    cabe = omega arith;
    ordem = omega arith;
    distintos = (refl, (refl, (refl, (refl, (refl, (refl, (refl, (refl, (refl, (refl, tt))))))))));
  };
  lugares = refl;
  relogio = record { acima = omega arith; abaixo = omega arith };
  espera = inl refl;
  pids = (refl, (refl, (refl, (refl, (refl, (refl, (refl, (refl, (refl, (refl, tt))))))))));
}

pedido_perdido_example : Esquece lotada (itera lotada (entrega (pedido_de 6 3) 106 16))
pedido_perdido_example =
    pedido_perdido lotada (pedido_de 6 3) 106 16 lotada-IsServidor pedido-IsInteira refl refl refl

-- The client.
abbrev cliente7 : Cliente
cliente7 = record {
  fase = Cliente.esperando;
  pid = pos 7;
  tempo = pos 1;
  aguardar = pos 0;
  req = lixo;
  resp = (mensagem (pos 0) ack 2 (pos 7)).corpo;
}

abbrev resposta7 : Request
resposta7 = record { rec = pos 30; cod = reply_allow; tempo = pos 5; pid = pos 7 }

espera-Devolve_teste : Devolve cliente7 (pos 30) (
    Cliente.espera cliente7 (record {
      chegada = some (record { tamanho = sizeof_ponteiro; corpo = resposta7 });
      envio_ok = true;
    }))
espera-Devolve_teste = espera-Devolve cliente7 resposta7 (λ e. cc) refl

devolucoes_limitadas_teste :
    conta release_token (
      enviadas (
        Cliente.executa cliente7 (
          record {
            chegada = some (record { tamanho = sizeof_ponteiro; corpo = resposta7 });
            envio_ok = true;
          }
          ∷ [])))
    ≤ 1
devolucoes_limitadas_teste =
    devolucoes_limitadas cliente7
      (record {
        chegada = some (record { tamanho = sizeof_ponteiro; corpo = resposta7 });
        envio_ok = true;
      }
        ∷ [])
      (omega arith, tt)
