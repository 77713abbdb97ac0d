-- ===== src/Port/Mode.antt =====
-- rfc2217.go: `SetMode` and the other operations that are a few commands. `command` is a parameter
-- here: what it does stands in Port/Acks. What a `serial.Mode` holds is the library's.
pub mod Plan
use vkt7d.Common.{
  ℕ, zero, suc, ◌/◌, ◌%◌, ◌^◌, ◌==◌, ltb, Bool, true, false, not, ◌||◌, if◌then◌else◌, Option, none,
  some, [], ◌∷◌, Bytes, bit_and,
}
use vkt7d.Common.Int.{ℤ, pos, negsuc}
use vkt7d.Errors.{refused, M, ◌>>=◌, ◌>>◌, done, fail}
use vkt7d.Port.{Port, set_baudrate, set_datasize, set_parity, set_stopsize, set_control, purge_data}

-- The constants of `serial.Parity` and `serial.StopBits`, and any other value of these types.
pub data Parity : Type 0 where
  no_parity odd_parity even_parity mark_parity space_parity : Parity
  other_parity : ℕ → Parity

pub data StopBits : Type 0 where
  one_stop two_stop one_five_stop : StopBits
  other_stop : ℕ → StopBits

pub record Bits : Type 0 where
  pub dtr : Bool
  pub rts : Bool

pub record Mode : Type 0 where
  pub baud_rate : ℤ
  pub data_bits : ℤ
  pub parity : Parity
  pub stop_bits : StopBits
  pub initial : Option Bits

-- The rate, if it is positive and fits into 32 bits.
abbrev pub valid_baud : ℤ → Option ℕ
valid_baud (pos n) = if (n == 0) || not (ltb n (2 ^ 32)) then none else some n
valid_baud (negsuc n) = none

abbrev pub valid_bits : ℤ → Option ℕ
valid_bits (pos n) = if ltb n 5 || ltb 8 n then none else some n
valid_bits (negsuc n) = none

abbrev pub parity_code : Parity → Option ℕ
parity_code no_parity = some 1
parity_code odd_parity = some 2
parity_code even_parity = some 3
parity_code mark_parity = some 4
parity_code space_parity = some 5
parity_code (other_parity n) = none

abbrev pub stop_code : StopBits → Option ℕ
stop_code one_stop = some 1
stop_code two_stop = some 2
stop_code one_five_stop = some 3
stop_code (other_stop n) = none

unfoldable pub u32be : ℕ → Bytes
u32be v = v / 2 ^ 24 % 256 ∷ v / 2 ^ 16 % 256 ∷ v / 2 ^ 8 % 256 ∷ v % 256 ∷ []

-- What a check found, or the refusal.
abbrev pub checked : {S : Type 0} → Option ℕ → M S ℕ
checked none = fail refused
checked (some n) = done n

module _ {S : Type 0} (command : ℕ → Bytes → M S (Unit {0})) where
  unfoldable pub set_rts : Bool → M S (Unit {0})
  set_rts true = command set_control (11 ∷ [])
  set_rts false = command set_control (12 ∷ [])

  unfoldable pub set_dtr : Bool → M S (Unit {0})
  set_dtr true = command set_control (8 ∷ [])
  set_dtr false = command set_control (9 ∷ [])

  abbrev pub initial_bits : Option Bits → M S (Unit {0})
  initial_bits none = done tt
  initial_bits (some b) = set_dtr b.dtr >> set_rts b.rts

  unfoldable pub set_mode : Option Mode → M S (Unit {0})
  unfolding set_rts set_dtr
  set_mode none = fail refused
  set_mode (some m) = do
    baud ← checked (valid_baud m.baud_rate)
    bits ← checked (valid_bits m.data_bits)
    parity ← checked (parity_code m.parity)
    stop ← checked (stop_code m.stop_bits)
    command set_baudrate (u32be baud)
    command set_datasize (bits ∷ [])
    command set_parity (parity ∷ [])
    command set_stopsize (stop ∷ [])
    initial_bits m.initial
    command set_control (1 ∷ [])

  -- The time between the two commands is not modelled.
  unfoldable pub break_ : M S (Unit {0})
  break_ = command set_control (5 ∷ []) >> command set_control (6 ∷ [])

  unfoldable pub reset_output_buffer : M S (Unit {0})
  reset_output_buffer = command purge_data (2 ∷ [])

  -- `drain` empties the channel `data`.
  unfoldable pub reset_input_buffer : M S (Unit {0}) → M S (Unit {0})
  reset_input_buffer drain = command purge_data (1 ∷ []) >> drain

pub record ModemBits : Type 0 where
  pub cts : Bool
  pub dsr : Bool
  pub ri : Bool
  pub dcd : Bool

unfoldable pub modem_bits : ℕ → ModemBits
modem_bits m = record {
  cts = not (bit_and m 0x10 == 0);
  dsr = not (bit_and m 0x20 == 0);
  ri = not (bit_and m 0x40 == 0);
  dcd = not (bit_and m 0x80 == 0);
}
