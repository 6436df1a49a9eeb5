-- ===== src/Orchestrator/Model.antt =====
-- crates/orchestrator/src/model.rs and the identifier check of storage.rs.
use cloud_desk_os.Prelude.{
  ℕ, ◌*◌, ◌≡◌, ◌↔◌, refl, Bool, true, false, ◌&&◌, String, str_eq, eq_iff, Option, none, some,
  arith, if◌then◌else◌,
}

pub data RuntimeKind : Type 0 where
  code office browser test_fixture : RuntimeKind

unfoldable pub kind_as_str : RuntimeKind → String
kind_as_str RuntimeKind.code = "code"
kind_as_str RuntimeKind.office = "office"
kind_as_str RuntimeKind.browser = "browser"
kind_as_str RuntimeKind.test_fixture = "test_fixture"

unfoldable pub kind_parse : String → Option RuntimeKind
kind_parse value =
    if str_eq value "code"
    then some RuntimeKind.code
    else if str_eq value "office"
    then some RuntimeKind.office
    else if str_eq value "browser"
    then some RuntimeKind.browser
    else if str_eq value "test_fixture"
    then some RuntimeKind.test_fixture
    else none

-- Derived equality of kinds.
unfoldable pub kind_eq : RuntimeKind → RuntimeKind → Bool
kind_eq RuntimeKind.code RuntimeKind.code = true
kind_eq RuntimeKind.office RuntimeKind.office = true
kind_eq RuntimeKind.browser RuntimeKind.browser = true
kind_eq RuntimeKind.test_fixture RuntimeKind.test_fixture = true
kind_eq _ _ = false

unfoldable pub is_selectable : RuntimeKind → Bool
is_selectable RuntimeKind.test_fixture = false
is_selectable RuntimeKind.code = true
is_selectable RuntimeKind.office = true
is_selectable RuntimeKind.browser = true

pub data InstanceState : Type 0 where
  unavailable disabled stopped starting running unhealthy stopping failed : InstanceState

unfoldable pub state_as_str : InstanceState → String
state_as_str unavailable = "unavailable"
state_as_str disabled = "disabled"
state_as_str stopped = "stopped"
state_as_str starting = "starting"
state_as_str running = "running"
state_as_str unhealthy = "unhealthy"
state_as_str stopping = "stopping"
state_as_str failed = "failed"

unfoldable pub state_parse : String → InstanceState
state_parse value =
    if str_eq value "unavailable"
    then unavailable
    else if str_eq value "disabled"
    then disabled
    else if str_eq value "starting"
    then starting
    else if str_eq value "running"
    then running
    else if str_eq value "unhealthy"
    then unhealthy
    else if str_eq value "stopping"
    then stopping
    else if str_eq value "failed"
    then failed
    else stopped

unfoldable pub is_terminal_for_reconciliation : InstanceState → Bool
is_terminal_for_reconciliation stopped = true
is_terminal_for_reconciliation failed = true
is_terminal_for_reconciliation disabled = true
is_terminal_for_reconciliation unavailable = false
is_terminal_for_reconciliation starting = false
is_terminal_for_reconciliation running = false
is_terminal_for_reconciliation unhealthy = false
is_terminal_for_reconciliation stopping = false

-- `state == Failed`, `state == Running`, and `matches!` on two states.
unfoldable pub is_failed : InstanceState → Bool
is_failed failed = true
is_failed unavailable = false
is_failed disabled = false
is_failed stopped = false
is_failed starting = false
is_failed running = false
is_failed unhealthy = false
is_failed stopping = false

unfoldable pub is_running : InstanceState → Bool
is_running running = true
is_running unavailable = false
is_running disabled = false
is_running stopped = false
is_running starting = false
is_running unhealthy = false
is_running stopping = false
is_running failed = false

pub data Persistence : Type 0 where
  persistent ephemeral : Persistence

pub record InstanceId : Type 0 where
  pub kind : RuntimeKind
  pub owner_user_id : String
  pub instance_id : String

-- Derived equality of identifiers.
unfoldable pub id_eq : InstanceId → InstanceId → Bool
id_eq a b =
    kind_eq a.kind b.kind
    && (str_eq a.owner_user_id b.owner_user_id && str_eq a.instance_id b.instance_id)

-- Durations in milliseconds. The CPU share, a float, is left out: the model never reads it.
pub record ResourcePolicy : Type 0 where
  pub max_instances_global : ℕ
  pub max_instances_per_user : ℕ
  pub memory_limit_bytes : Option ℕ
  pub pids_limit : Option ℕ
  pub start_timeout : ℕ
  pub health_timeout : ℕ
  pub stop_timeout : ℕ
  pub idle_timeout : Option ℕ

abbrev pub default_policy : ResourcePolicy
default_policy = record {
  max_instances_global = 8;
  max_instances_per_user = 1;
  memory_limit_bytes = some (512 * 1024 * 1024);
  pids_limit = some 64;
  start_timeout = 20 * 1000;
  health_timeout = 10 * 1000;
  stop_timeout = 10 * 1000;
  idle_timeout = some (30 * 60 * 1000);
}

kind_parse-as_str : (k : RuntimeKind) → kind_parse (kind_as_str k) ≡ some k
unfolding kind_parse kind_as_str
kind_parse-as_str RuntimeKind.code = refl
kind_parse-as_str RuntimeKind.office = refl
kind_parse-as_str RuntimeKind.browser = refl
kind_parse-as_str RuntimeKind.test_fixture = refl

state_parse-as_str : (s : InstanceState) → state_parse (state_as_str s) ≡ s
unfolding state_parse state_as_str
state_parse-as_str unavailable = refl
state_parse-as_str disabled = refl
state_parse-as_str stopped = refl
state_parse-as_str starting = refl
state_parse-as_str running = refl
state_parse-as_str unhealthy = refl
state_parse-as_str stopping = refl
state_parse-as_str failed = refl

-- Both columns of `runtime_instances` that hold names are read back as they were written.
pub names_read_back :
    (k : RuntimeKind) (s : InstanceState)
    → (kind_parse (kind_as_str k) ≡ some k) × (state_parse (state_as_str s) ≡ s)
names_read_back k s = (kind_parse-as_str k, state_parse-as_str s)

pub kind_eq_iff : (a b : RuntimeKind) → (kind_eq a b ≡ true) ↔ (a ≡ b)
unfolding kind_eq
kind_eq_iff RuntimeKind.code b = ground arith
kind_eq_iff RuntimeKind.office b = ground arith
kind_eq_iff RuntimeKind.browser b = ground arith
kind_eq_iff RuntimeKind.test_fixture b = ground arith

pub id_eq_iff : (a b : InstanceId) → (id_eq a b ≡ true) ↔ (a ≡ b)
unfolding id_eq
id_eq_iff a b = ground (
  arith,
  kind_eq_iff a.kind b.kind,
  eq_iff a.owner_user_id b.owner_user_id,
  eq_iff a.instance_id b.instance_id,
)
