-- ===== src/Port.antt =====
-- internal/rfc2217/rfc2217.go: the network serial port. This file has the constants, the table of
-- acknowledgements and the port's state; the children have its operations. The connection is a
-- library's (net.Conn): its state and its `Write` are a parameter.
pub mod Output
pub mod Acks
pub mod Queue
pub mod Mode
pub mod Session
pub mod Endpoint
use vkt7d.Common.{ℕ, ◌==◌, Bool, if◌then◌else◌, Option, List, [], ◌∷◌, Bytes}
use vkt7d.Errors.{Error, M}

abbrev pub binary : ℕ
binary = 0

abbrev pub sga : ℕ
sga = 3

abbrev pub comport : ℕ
comport = 44

abbrev pub set_baudrate : ℕ
set_baudrate = 1

abbrev pub set_datasize : ℕ
set_datasize = 2

abbrev pub set_parity : ℕ
set_parity = 3

abbrev pub set_stopsize : ℕ
set_stopsize = 4

abbrev pub set_control : ℕ
set_control = 5

abbrev pub purge_data : ℕ
purge_data = 12

abbrev pub server_notify_modemstate : ℕ
server_notify_modemstate = 107

-- `answerCommand`, in the order of the source.
abbrev pub answer_command : List (ℕ × ℕ)
answer_command =
    (1, 101)
    ∷ (2, 102)
    ∷ (3, 103)
    ∷ (4, 104)
    ∷ (5, 105)
    ∷ (6, 106)
    ∷ (7, 107)
    ∷ (8, 108)
    ∷ (9, 109)
    ∷ (10, 110)
    ∷ (11, 111)
    ∷ (12, 112)
    ∷ []

-- The lookup of a key: 0 where it is missing.
unfoldable pub answer_from : List (ℕ × ℕ) → ℕ → ℕ
answer_from [] c = 0
answer_from ((k, v) ∷ t) c = if k == c then v else answer_from t c

-- The search of a value by the loop of `handleSubneg`: 0 where it is missing. Go's order of a map is
-- not fixed; no two commands have the same answer.
unfoldable pub client_from : List (ℕ × ℕ) → ℕ → ℕ
client_from [] a = 0
client_from ((k, v) ∷ t) a = if v == a then k else client_from t a

unfoldable pub answer_of : ℕ → ℕ
unfolding answer_from
answer_of c = answer_from answer_command c

unfoldable pub client_of : ℕ → ℕ
unfolding client_from
client_of a = client_from answer_command a

pub record Connection : Type 1 where
  pub State : Type 0
  -- How many bytes were taken.
  pub write : Bytes → M State ℕ

-- The fields of `Port` that its operations change. `acks` has the pending commands with what their
-- channels hold, `chunks` (field `data`) the ones that wait for `Read`, and `failure` what errCh holds.
pub record Port (C : Type 0) : Type 0 where
  pub conn : C
  pub acks : List (ℕ × Option Bytes)
  pub chunks : List Bytes
  pub failure : Option Error
  pub closed : Bool
  pub modem : ℕ
