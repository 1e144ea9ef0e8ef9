-- ===== src/Client/Popping.antt =====
-- A call that was taken from the pending map, and a reference that was completed.
use rpc_freethread.Prelude.{ℕ, String, true, ◌≡◌, some, List, [], arith, eq_iff}
use rpc_freethread.Prelude.Dict.{get, remove, get-remove, remove-NodupKeys}
use rpc_freethread.Value.{nothing, text, Fields, field_or, is_text}
use rpc_freethread.ObjectRef.{ObjectRef, ready}
use rpc_freethread.Client.State.{Client, update}
use rpc_freethread.Client.Pending.{IsValid}

-- The state once the reference of `id` has been popped.
abbrev pub popped : String → Client → Client
popped id c = record c { pending = remove id c.pending }

pub popped-IsValid :
    {held : List ℕ} (c : Client) (id : String) → IsValid held c → IsValid [] (popped id c)
popped-IsValid c id v = record {
  nodup = remove-NodupKeys id c.pending v.nodup;
  waiting = λ j a e. ground (arith, get-remove id j c.pending, v.waiting j a);
  no_leak = λ a h w. cc;
  allocated = λ a h. cc;
  emptied = λ h j. ground (arith, get-remove id j c.pending, v.emptied h j);
}

-- A popped reference that is then completed leaves the bookkeeping in order.
pub completed-IsValid :
    {held : List ℕ} (c : Client) (id : String) (a : ℕ) (o : ObjectRef)
    → IsValid held c
    → get id c.pending ≡ some a
    → ready o ≡ true
    → IsValid held (record c { pending = remove id c.pending; refs = update c.refs a o })
completed-IsValid c id a o v found done = record {
  nodup = remove-NodupKeys id c.pending v.nodup;
  waiting = λ j b e.
      ground (arith, get-remove id j c.pending, v.waiting j b, v.waiting id a found, eq_iff id j);
  no_leak = λ b h w. ground (
    arith,
    v.no_leak b h,
    get-remove id (c.refs b).call_id c.pending,
    eq_iff id (c.refs b).call_id,
  );
  allocated = v.allocated;
  emptied = λ h j. ground (arith, get-remove id j c.pending, v.emptied h j);
}

-- A response to the call `id`, up to its outcome.
pub record Responds (fs : Fields) (id : String) : Type 0 where
  pub is_result : is_text "result" (field_or nothing "type" fs) ≡ true
  pub names_call : field_or nothing "call_id" fs ≡ text id
