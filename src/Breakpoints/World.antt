-- ===== src/Breakpoints/World.antt =====
-- The state that the requests change, and calls that can throw. What gdb does is a parameter: `post`
-- gives its answer to a command and its state afterwards.
use mcu_debug.Prelude.{ℕ, Option, none, some, List, [], ◌∷◌, ◌++◌, ite, ℤ}
use mcu_debug.Mi.Chars.{Text}
use mcu_debug.Breakpoints.Args.{Command}

pub data Error : Type 0 where
  -- the message of gdb
  gdb : Text → Error
  -- "Error deleting old breakpoints, so new ones can be set"
  deleting : Error → Error
  -- the answer has no description of a breakpoint
  no_information : Error
  -- a reference that `BigInt` refuses
  bad_reference : Text → Error

-- The description of a breakpoint in gdb's answer.
pub record BkptInfo : Type 0 where
  pub number : ℕ
  -- `none` where the number does not parse
  pub line : Option ℕ
  -- the fields "address" and "addr"
  pub address : Option Text
  pub addr : Option Text

pub data Answer : Type 0 where
  done : Option BkptInfo → Answer
  failed : Text → Answer

pub data Message : Type 0 where
  unsupported_count : Text → Message
  hardware_dprintf : Text → Option ℕ → Message
  not_set : Error → Message

-- A JavaScript Map in the order of its entries: a key that is there keeps its place.
module _ {ℓ κ} {K : Type ℓ} {V : Type κ} (dec : Discrete K) where
  unfoldable pub set_entry : K → V → List (K × V) → List (K × V)
  set_entry k v [] = (k, v) ∷ []
  set_entry k v ((j, w) ∷ rest) = ite (dec j k) ((k, v) ∷ rest) ((j, w) ∷ set_entry k v rest)

  unfoldable pub get_entry : K → List (K × V) → Option V
  get_entry k [] = none
  get_entry k ((j, w) ∷ rest) = ite (dec j k) (some w) (get_entry k rest)

-- The breakpoints of one kind by their number in gdb.
abbrev pub Table {ℓ} : Type ℓ → Type ℓ
Table X = List (ℕ × X)

abbrev pub ids {ℓ} : {X : Type ℓ} → Table X → List ℕ
ids [] = []
ids ((id, x) ∷ rest) = id ∷ ids rest

-- An empty text stands for one that is not given.
pub record SourceBreakpoint : Type 0 where
  pub line : Option ℕ
  pub condition : Text
  pub hit_condition : Text
  pub log_message : Text

pub record InstructionBreakpoint : Type 0 where
  pub instruction_reference : Text
  pub offset : ℤ
  pub condition : Text
  pub hit_condition : Text

pub record FunctionBreakpoint : Type 0 where
  pub name : Text
  pub condition : Text
  pub hit_condition : Text

-- `access_type` is the number of the access: 0 for write, 1 for read, else both.
pub record DataBreakpoint : Type 0 where
  pub data_id : Text
  pub access_type : ℕ

pub record Manager : Type 0 where
  pub file_breakpoints : List (Text × Table SourceBreakpoint)
  pub instr_breakpoints : Table InstructionBreakpoint
  pub function_breakpoints : Table FunctionBreakpoint
  pub data_breakpoints : Table DataBreakpoint

-- A request of the editor, with what it asks for.
pub data Request : Type 0 where
  source_request : Text → List SourceBreakpoint → Request
  instruction_request : List InstructionBreakpoint → Request
  function_request : List FunctionBreakpoint → Request
  data_request : List DataBreakpoint → Request

pub record World (G : Type 0) : Type 0 where
  pub manager : Manager
  pub gdb_state : G
  -- the commands sent and the messages shown, from the first to the last
  pub sent : List Command
  pub messages : List Message
  -- the requests whose operation waits for the next stop of the target, from the first to the last
  pub armed : List Request

pub data Result {ℓ} (A : Type ℓ) : Type ℓ where
  ok : A → Result A
  throws : Error → Result A

abbrev pub M : Type 0 → Type 0 → Type 0
M G A = World G → Result A × World G

abbrev pub and_then : {G A B : Type 0} → Result A → (A → M G B) → M G B
and_then (ok a) f w = f a w
and_then (throws e) f w = (throws e, w)

infixl 5 ◌>>=◌ ◌>>◌
abbrev pub ◌>>=◌ : {G A B : Type 0} → M G A → (A → M G B) → M G B
◌>>=◌ m f w = and_then (m w).0 f (m w).1

abbrev pub ◌>>◌ : {G A B : Type 0} → M G A → M G B → M G B
m >> k = m >>= λ _. k

abbrev pub pure : {G A : Type 0} → A → M G A
pure a w = (ok a, w)

abbrev pub throw : {G A : Type 0} → Error → M G A
throw e w = (throws e, w)

abbrev pub modify : {G : Type 0} → (Manager → Manager) → M G (Unit {0})
modify f w = (ok tt, record w { manager = f w.manager })

abbrev pub handle_msg : {G : Type 0} → List Message → M G (Unit {0})
handle_msg ms w = (ok tt, record w { messages = w.messages ++ ms })

abbrev pub get_manager : {G : Type 0} → M G Manager
get_manager w = (ok w.manager, w)
