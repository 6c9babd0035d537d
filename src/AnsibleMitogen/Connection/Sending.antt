-- ===== src/AnsibleMitogen/Connection/Sending.antt =====
-- mitogen-0.2.9/ansible_mitogen/connection.py: what a connection asks of its target, commands and files.
-- The calls of mitogen and what the target answers are parameters.
pub mod Whole
mod Tests
use ansible_course.Base.{
  ℕ, zero, suc, ◌+◌, Bool, true, false, Text, Option, none, some, List, [], ◌∷◌, ◌++◌, ◌==◌, ◌&&◌,
  not, leb, nat_key, if◌then◌else◌,
}
use ansible_course.Base.Lists.{codes, length}
use ansible_course.AnsibleMitogen.Target.Commands.{Output}
use ansible_course.AnsibleMitogen.Connection.Lifecycle.{Context, Link, Got, Ended, connect, reset}

-- What `recv.get().unpickle()` gives: a value, the target's exception, or `ChannelError`.
pub data Reply {ℓ} (A : Type ℓ) : Type ℓ where
  value : A → Reply A
  call_error channel_error : Reply A

-- How a method ends: `failed` is `AnsibleConnectionFailure`, `unconnected` and `unreset` what `_connect`
-- and `reset` raise.
pub data Ends {ℓ} (A : Type ℓ) : Type ℓ where
  returned : A → Ends A
  raised failed unconnected unreset : Ends A

abbrev pub after_reset {ℓ} : {A : Type ℓ} → Ended → Link × Ends A
after_reset (c, true) = (c, failed)
after_reset (c, false) = (c, unreset)

-- `CallChain._rethrow`, which is what `CallChain.call` returns.
pub rethrow {ℓ} : {A : Type ℓ} → (Link → Ended) → Reply A → Link → Link × Ends A
rethrow reset_it (value a) c = (c, returned a)
rethrow reset_it call_error c = (c, raised)
rethrow reset_it channel_error c = after_reset (reset_it c)

-- `get_chain`: the chain of the login account, of the fork parent if there is one, or of the target.
abbrev pub chosen : Bool → Bool → Option Context → Link → Option Context
chosen true use_fork fork_context c = c.login_context
chosen false true (some parent) c = some parent
chosen false true none c = c.chain
chosen false false fork_context c = c.chain

pub get_chain : (Link → Ended) → Bool → Bool → Option Context → Link → Link × Ends (Option Context)
get_chain connect_it use_login use_fork fork_context c =
    let (d, ok) = connect_it c in
    if ok then (d, returned (chosen use_login use_fork fork_context d)) else (d, unconnected)

-- A call on the chain of the target.
abbrev pub called {ℓ} : {A : Type ℓ} → (Link → Ended) → Reply A → Ended → Link × Ends A
called reset_it reply (c, true) = rethrow reset_it reply c
called reset_it reply (c, false) = (c, unconnected)

pub call_on_target {ℓ} :
    {A : Type ℓ} → (Link → Ended) → (Link → Ended) → Reply A → Link → Link × Ends A
unfolding rethrow
call_on_target connect_it reset_it reply c = called reset_it reply (connect_it c)

-- `b'Shared connection to %s closed.%s'`
pub shared_connection : Text → Bool → Text
shared_connection remote_addr emulate_tty =
    codes "Shared connection to "
    ++ (remote_addr ++ (codes " closed." ++ (if emulate_tty then 13 ∷ 10 ∷ [] else 10 ∷ [])))

abbrev pub with_message {ℓ} :
    {L : Type ℓ} → Text → L × Ends (ℕ × Text × Text) → L × Ends (ℕ × Text × Text)
with_message message (c, returned (rc, out, err)) = (c, returned (rc, out, err ++ message))
with_message message (c, raised) = (c, raised)
with_message message (c, failed) = (c, failed)
with_message message (c, unconnected) = (c, unconnected)
with_message message (c, unreset) = (c, unreset)

abbrev empty : Text → Bool
empty [] = true
empty (_ ∷ _) = false

pub emulates_tty : Text → Bool → Bool
emulates_tty in_data sudoable = empty in_data && sudoable

-- `exec_command`; the target's own function is asked whether to emulate a terminal.
pub exec_command :
    (Link → Ended)
    → (Link → Ended)
    → (Bool → Reply (ℕ × Text × Text))
    → Text
    → Text
    → Bool
    → Link
    → Link × Ends (ℕ × Text × Text)
unfolding call_on_target shared_connection emulates_tty
exec_command connect_it reset_it target remote_addr in_data sudoable c =
    let emulate_tty = emulates_tty in_data sudoable in
    with_message (shared_connection remote_addr emulate_tty)
      (call_on_target connect_it reset_it (target emulate_tty) c)

-- What `os.stat` says of a local file, or its `errno`.
pub data Stat : Type 0 where
  stat_error : ℕ → Stat
  stated : Bool → ℕ → ℕ → Stat

-- What `put_file` asks of the target: the data itself with its mode, or to fetch the path, which was
-- registered before.
pub data Request : Type 0 where
  write_path : Text → ℕ → Request
  register transfer : Request

pub data Put : Type 0 where
  asks : List Request → Put
  file_not_found os_error not_regular unbound_local : Put

-- `_throw_io_error`, and the `raise` behind it.
abbrev pub io_error : ℕ → ℕ → Put
io_error enoent errno = if errno == enoent then file_not_found else os_error

-- `fp.read(n)`
pub take : ℕ → Text → Text
take zero s = []
take (suc n) [] = []
take (suc n) (c ∷ s) = c ∷ take n s

-- The data that were read of a small file.
abbrev pub small : Text → ℕ → ℕ → Put → Put
small s size mode rest = if length s == size then asks (write_path s mode ∷ []) else rest

-- `put_file`, with `SMALL_FILE_LIMIT` and the file's content when it is read, if it can be; where `open`
-- or `read` raises, the name `e` that the handler uses has no value.
pub put_file : ℕ → ℕ → Stat → Option Text → Put
unfolding take
put_file enoent limit (stat_error errno) content = io_error enoent errno
put_file enoent limit (stated false size mode) content = not_regular
put_file enoent limit (stated true size mode) none =
    if leb size limit then unbound_local else asks (register ∷ transfer ∷ [])
put_file enoent limit (stated true size mode) (some content) =
    if leb size limit
    then small (take (suc limit) content) size mode (asks (register ∷ transfer ∷ []))
    else asks (register ∷ transfer ∷ [])
