-- ===== src/Examples/Tests.antt =====
-- The two scripts on concrete ends.
use rpc_freethread.Prelude.{ℕ, ◌≡◌, refl, true, some, [], ◌∷◌, inl, Option}
use rpc_freethread.Prelude.Dict.{get, put}
use rpc_freethread.Errors.{Result, ok, err, os_error}
use rpc_freethread.Exec.{Exec}
use rpc_freethread.Value.{Value, number, boolean}
use rpc_freethread.Python.{plain}
use rpc_freethread.Registry.{Target, register, remote, get_function}
use rpc_freethread.Runtime.State.{Runtime}
use rpc_freethread.Runtime.Lifecycle.{new_runtime, start, wait}
use rpc_freethread.Runtime.Tests.{ser}
use rpc_freethread.Client.State.{Client}
use rpc_freethread.Client.Process.{RemoteProcess}
use rpc_freethread.Client.Tests.{fresh_connection}
use rpc_freethread.Examples.{print_all, server_main, add_target}

abbrev worker : RemoteProcess
worker = record { connection = fresh_connection; actor_names = [] }

abbrev answers : ℕ → Exec Client Value
answers ref c = (ok (number ref), c)

-- The last call is printed first.
printed :
    (print_all ser answers (λ i. ("c", "a")) 2 (inl 5 ∷ inl 6 ∷ []) (worker, [])).1.1
    ≡ number 6 ∷ number 5 ∷ []
unfolding print_all
printed = refl

-- A port that is taken ends the server's script.
refused :
    server_main 1 tt (err (os_error "Address already in use"))
    ≡ err (os_error "Address already in use")
unfolding server_main new_runtime start
refused = refl

-- The server goes on, and knows `add`.
abbrev found : Result (Option (Unit {0}) × Runtime (Unit {0})) → Result Target
found (ok (_, r)) = get_function "add" r.registry
found (err e) = err e

serves :
    found (server_main 1 tt (ok tt)) ≡ ok (record (add_target 1) { marked = some (boolean true) })
unfolding server_main new_runtime start remote register get put get_function wait
serves = refl
