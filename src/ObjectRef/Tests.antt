-- ===== src/ObjectRef/Tests.antt =====
-- object_ref.py on concrete references.
use rpc_freethread.Prelude.{◌≡◌, refl, true, false, some, [], ◌∷◌}
use rpc_freethread.Errors.{ok}
use rpc_freethread.Value.{text}
use rpc_freethread.Python.{plain}
use rpc_freethread.ObjectRef.{
  ObjectRef, new_ref, ready, result_is, error_is, complete, get, set_result,
}
use rpc_freethread.ObjectRef.Once.{first_completion_wins}

abbrev call : ObjectRef
call = new_ref "c1"

call_waits : ready call ≡ false
unfolding ready
call_waits = refl

abbrev answered : ObjectRef
answered = (complete (result_is (text "done")) call).1

answered-ready : ready answered ≡ true
unfolding ready set_result
answered-ready = refl

first_completion_wins_example :
    ((complete (result_is (text "done")) call).0 ≡ ok tt)
    × (get (some 5) (error_is "X" "late" ∷ []) answered ≡ some (ok (text "done"), answered))
    × (get (some 5) (result_is (text "done") ∷ error_is "X" "late" ∷ []) call
        ≡ some (ok (text "done"), answered))
first_completion_wins_example =
    first_completion_wins (result_is (text "done")) (error_is "X" "late" ∷ []) (some 5) call
      call_waits
