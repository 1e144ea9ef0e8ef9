-- ===== src/Client/State.antt =====
-- The state of `RpcClientConnection`, with the references that it has made. A call's reference is
-- shared by the pending map and the caller, so both name it by its address in `refs`.
use rpc_freethread.Prelude.{ℕ, suc, ◌+◌, String, Bool, true, false, [], ◌==◌, if◌then◌else◌}
use rpc_freethread.Prelude.Dict.{Dict}
use rpc_freethread.Errors.{Result, ok, err, value_error, os_error}
use rpc_freethread.Exec.{Exec}
use rpc_freethread.Value.{Value, number}
use rpc_freethread.Protocol.Socket.{Sock}
use rpc_freethread.ObjectRef.{ObjectRef, new_ref}

pub record Client : Type 0 where
  pub sock : Sock
  pub sock_open : Bool
  pub pending : Dict ℕ
  pub closed : Bool
  pub max_frame_size : ℕ
  pub refs : ℕ → ObjectRef
  pub next_ref : ℕ

abbrev pub update {ℓ} : {A : Type ℓ} → (ℕ → A) → ℕ → A → ℕ → A
update f i a j = if i == j then a else f j

-- `type(max_frame_size) is not int or max_frame_size <= 0`: only a positive int passes.
unfoldable pub check_max_frame_size : Value → Result ℕ
check_max_frame_size (number (suc n)) = ok (suc n)
check_max_frame_size _ = err (value_error "max_frame_size must be a positive integer")

abbrev with_limit : Sock → Result ℕ → Result Client
with_limit sock (err e) = err e
with_limit sock (ok max) = ok (record {
  sock = sock;
  sock_open = true;
  pending = [];
  closed = false;
  max_frame_size = max;
  refs = λ _. new_ref "";
  next_ref = 0;
})

-- `RpcClientConnection(sock, max_frame_size=max)`, before its reader thread runs.
unfoldable pub new_client : Sock → Value → Result Client
unfolding check_max_frame_size
new_client sock max = with_limit sock (check_max_frame_size max)

-- A call on the socket; once closed, every call on it raises.
unfoldable pub on_sock : {A : Type 0} → Exec Sock A → Exec Client A
on_sock m c = elim c.sock_open [
  | true ↦ let (r, s) = m c.sock in (r, record c { sock = s })
  | false ↦ (err (os_error "Bad file descriptor"), c)
]

-- `ObjectRef(call_id)`, at a new address
unfoldable pub allocate : String → Exec Client ℕ
allocate id c = (
  ok c.next_ref,
  record c { refs = update c.refs c.next_ref (new_ref id); next_ref = c.next_ref + 1 },
)

-- A method call on the reference at an address.
unfoldable pub on_ref : {A : Type 0} → ℕ → Exec ObjectRef A → Exec Client A
on_ref a m c = let (r, o) = m (c.refs a) in (r, record c { refs = update c.refs a o })
