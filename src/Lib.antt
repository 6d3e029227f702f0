-- ===== src/Lib.antt =====
-- x4c keeps carbon credits as tokens on Tezos. A custodian contract holds tokens of FA2 contracts
-- for parties that are known by a KYC text; a server and a command line tool, written in Go, call
-- the contracts through an RPC node and read their state and events through the TzKT indexer.
--
-- The parts of the program, the files here, and the code:
--   Contracts/Custodian: the custodian contract, src/custodian.mligo. Storage is the record Storage,
--     one function per entrypoint, with the bodies of its loops as functions of their own, and main.
--     failwith is an error code, and the operations that a call leaves are data. Parameters reads
--     the Micheline value of a call as LIGO lays the types out, Guards has what the entrypoints share.
--     Steps says what one step of a loop does, and the other modules prove what calls do.
--   Contracts/Fa2: the token contract, src/fa2.mligo, in the same way.
--   Contracts/Balance: update_balance, which both contracts have, and List.fold with failwith.
--   Contracts/Settlement: both contracts on one chain. A System is the storages of the custodian
--     contract and of one token contract, with the operations that calls of the custodian have left;
--     an Event is a call of either contract or the next of these operations, and run does a list of
--     them. Other contracts answer as World says. The children prove what runs keep and reach.
--   Contracts/Michelson: how a contract reads a Micheline value. Stored in each contract reads the
--     storage of an origination.
--   Tzkt: backend/pkg/tzkt, requests to the indexer (Client) and its structs (Types).
--   Tzclient: backend/pkg/tzclient. Load makes a client from the environment and the files of
--     tezos-client, Names looks names up and saves a contract, Calls sends calls and originations
--     (with the loop that repeats them in Chain), Accounts is wallet.go and encoding.go, Interface
--     makes the client a TezosClient, and Mock is the client of the server's tests.
--   Ledgers: backend/pkg/x4c. Entrypoints builds the parameters of calls, Types and State read
--     storage and big maps, Events reads events, and Output is how they are marshalled. They take a
--     TezosClient, as the server does.
--   Server: backend/cmd/server. Handlers is credit_sources.go and information.go, Retirement is
--     retire.go, Routes is main.go, whose operator Starting is about. Reaching puts the server before
--     a node that runs the custodian contract, and Settling before one that runs both contracts.
--   Cli: backend/cmd/x4cli. Setup is what the commands share, Calls and Originate the commands that
--     change the chain, Info, Tables and Output those that show it, Commands their names. Items and
--     Snapshots are about what is read back of the JSON, Originating and Deploying about Originate,
--     Faults about arguments that name nothing, and Reaching puts custodian retire before a node that
--     runs the custodian contract.
--   Json: encoding/json as far as the code uses it. Host: tzgo and net/url as parameters.
--   Base: results, state passing, integers, texts and maps. Tests: samples and applied theorems.
--
-- State and failure: a method that reaches the network takes the state of the outside world and
-- gives a result and the state after (Action); a pure one gives a result (Outcome). An error keeps
-- the texts of its chain, without the values printed into them, and its cause. A Go map is an
-- association list, and ranging over it takes an order of its entries as a parameter (MapOrder).
--
-- Bounds and fuel: retry counts the tries that are left, which is the loop's own bound (five, so six
-- attempts); an integer's decimal digits are counted by the integer plus one, which is more than
-- there are. Every other function is by structural recursion. int64 values are read with their range
-- checked; the contracts' nat and int have no bound.
--
-- Not modelled: the tokenizer and printer of JSON, the folding of field names outside ASCII, the
-- values printed into errors, logging, the flags and help texts of commands, the layout of tables,
-- times other than as text, the router library, listening and signals, and the TypeScript under
-- frontend, because they are output or other programs. A call of a contract other
-- than the two of a System is taken to succeed there, since its failure undoes the whole transaction.
-- Where encoding/json records a mismatch and goes on, decoding ends at once, since every caller drops
-- the result.
pub mod Base
pub mod Json
pub mod Host
pub mod Tzkt
pub mod Tzclient
pub mod Ledgers
pub mod Server
pub mod Cli
pub mod Contracts
pub mod Tests
