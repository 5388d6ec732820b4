-- ===== src/Lib.antt =====
-- Verification of the distributed-systems laboratories (course code of UNIFESP): a centralised
-- server that hands a token to one client at a time, over UDP and over Sun RPC, a dictionary
-- service over RPC, and two small RPC exercises.
--
-- Fila models the ordered request queue of LAB2-NETKIT/servidor.c (`init`, `EstaNaFila`, `insere`,
-- `removeItem`), which LAB07-SD/backup/servidor.c copies. The list behind `head` is a `List`;
-- `tamanho` is kept beside it as in the code, and a NULL that is dereferenced is `none`.
-- Lista models the same functions of LAB07-SD/servidor.c node by node: the nodes lie in a memory
-- that maps an address to a cell, and `free` takes the cell away. `struct Sfila` is a value that
-- the functions are given and return. What `malloc` returns is an argument.
-- FilaAvulsa models fila.c: the queue without the test for duplicates, the block that its
-- `removeItem` fills, and its `main`.
-- Netkit models LAB2-NETKIT/servidor.c and cliente.c: Netkit.Mensagem the messages and datagrams,
-- Netkit.Servidor the server's `main` and loop, Netkit.Cliente the client's, Netkit.Coordenador the
-- abstract coordinator of the server, and Netkit.Sistema the server and any number of clients,
-- whose rounds interleave. Its network may delay, reorder and lose datagrams but does not copy
-- them; a failed `sendto` is a loss, and a failed `recvfrom` a round that the system leaves out.
-- Netkit.Sistema.Ficha follows the token of that system and Netkit.Sistema.Valor its value,
-- Netkit.Sistema.Pendencia each client, and Netkit.Sistema.Tipos the ranges of the C types of its
-- variables.
-- Rpc models LAB07-SD/backup: Rpc.Servidor `req_1_svc` and `rel_1_svc` of servidor.c, Rpc.Cliente
-- the `main` of cliente-2.c, Rpc.Ciclo the rounds of the two together, Rpc.Despacho `server_cent_1`
-- and `main` of server_cent_svc.c, which call the procedures, Rpc.Codigo the filters of
-- server_cent_xdr.c, and Rpc.Remota the rounds of one client, or of two, over the network, through
-- the stubs of server_cent_clnt.c, the filters and the dispatcher. LAB07-SD/backup2-sem-M has the
-- same generated files.
-- SemMutex models `req_1_svc` and `rel_1_svc` of LAB07-SD/backup2-sem-M/servidor.c on the queue of
-- Lista, and SemMutex.Corrida its calls one after the other; Fila.Imagem carries the queue
-- functions from its cells to the entries of Rpc.Servidor.
-- Central models the generated files of LAB07-SD (server_cent.h, server_cent_xdr.c,
-- server_cent_svc.c and server_cent_clnt.c), with the procedures as a parameter.
-- Rdict models the program that LAB07-SD/thread-RPC.c quotes: Rdict.Dicionario the four operations
-- of rdict_srp.c, Rdict.Atende `serv_request` of rdict_svc.c, Rdict.Concorrente any number of its
-- threads inside the four operations, statement by statement, Rdict.Leitura `nextin` and
-- Rdict.Sessao `rdictprog_1` and `main` of rdict_client.c.
-- Rpcgen models what rpcgen writes into both services of LAB07-SD/AExemplo-RPC, and the interface
-- that a `.x` file states; Rpcgen.Ponteiro what it writes into LAB07-SD, where a procedure returns
-- a pointer. Rpcgen.Bytes and Rpcgen.Campos say what a filter writes and reads back, and
-- Rpcgen.Rede what the library makes of a call over the network. Quadrado models the square service
-- in its folder Another-Ex (the filters of square_xdr.c, the procedures of servidor.c,
-- `square_prog_1` of square_svc.c, the stubs of square_clnt.c and `main` of cliente.c), and Tempo
-- the time service (tempo_xdr.c, tempo_proced.c, tempo_svc.c, tempo_clnt.c and cliente.c). The
-- `main` of each service stands in Rpc.Despacho.Registro.
--
-- Integers are ℤ, and each store into a `char`, `int` or `long` goes through `i8`, `i32` or `i64`
-- (two's complement, `char` signed; C leaves the overflow of a signed sum undefined;
-- Netkit.Servidor.Somas and Netkit.Sistema.Somas say where the sums of LAB2-NETKIT fit). Pointers have
-- eight bytes and `int` four. `recvfrom` overwrites the fields that lie within the datagram; a
-- datagram that ends inside a field is not distinguished from one that ends before it.
-- A loop that never ends is run on a list of inputs, one for each round, so no fuel is needed. What
-- the environment does (arrivals, answers of the RPC library, success of `socket`, `bind` and
-- `sendto`, what an uninitialised variable holds) is an input. `struct sockaddr_in`, `isspace`, the
-- library's filters, `svc_getargs`, `svc_sendreply`, `svc_freeargs` and `clnt_call` are parameters.
-- The laws of the last four for a call over TCP are the record `Rede`: the call reaches the
-- dispatcher once, and it succeeds if a result is sent and read. A dispatcher that never returns
-- leaves a process that takes no call.
-- The loop in `req_1_svc` changes nothing, and it runs for a number of turns; the theorems hold for
-- every number (of one at least, or of any). The loop of `rdictprog_1`, `laco`, runs for a number
-- of turns too, and one more than the input has characters is enough. The loops of Lista run for
-- one turn more than the queue has entries, which is enough. A thread of the dictionary alone needs
-- two steps for each word and three more. The loop of the client over the network runs for a number
-- of turns, any one.
-- The RPC token server answers one call at a time, as its dispatcher does. Threads of the
-- dictionary take turns between statements; a word is written as a whole, and a row that is copied
-- onto itself stays; in `serv_request` that is undefined. Printing, `sleep`, the thread of
-- `squareproc_1_svc`, which only prints, and the allocation of memory that succeeds are not
-- modelled.
-- Not modelled: the procedures of LAB07-SD/servidor.c, LAB07-SD/cliente.c, and `consumidor` and
-- cliente.c of LAB07-SD/backup2-sem-M, which do not compile; LAB07-SD/AExemplo-RPC/cliente-2.c, a
-- copy of the client in LAB07-SD/backup; and the configuration files of LAB2-NETKIT.
pub mod Base
pub mod Fila
pub mod FilaAvulsa
pub mod Lista
pub mod Rpc
pub mod Rdict
pub mod Netkit
pub mod Rpcgen
pub mod Quadrado
pub mod Tempo
pub mod Central
pub mod SemMutex
