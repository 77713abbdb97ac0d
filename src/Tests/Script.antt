-- ===== src/Tests/Script.antt =====
-- A serial port that follows a script: what each read gives, and how many turns the clock leaves.
-- It shows that the hypotheses on a port can be met, and runs the transactions of the tests.
use vkt7d.Common.{ℕ, ◌≡◌, refl, false, List, [], ◌∷◌, ◌++◌, Bytes}
use vkt7d.Errors.{Error, ok, err}
use vkt7d.Protocol.Transaction.{ReadEvent, received, SerialPort, is_crc_error}
use vkt7d.Protocol.Transaction.Retry.{Observed}

pub record Script : Type 0 where
  pub reads : List ReadEvent
  pub written : List Bytes
  pub turns : ℕ

abbrev pub next : List ReadEvent → ReadEvent
next [] = received []
next (e ∷ es) = e

abbrev pub rest : List ReadEvent → List ReadEvent
rest [] = []
rest (e ∷ es) = es

abbrev pub scripted : SerialPort
scripted = record {
  State = Script;
  set_read_timeout = λ t s. (ok tt, s);
  reset_input_buffer = λ s. (ok tt, s);
  write = λ b s. (ok tt, record s { written = s.written ++ b ∷ [] });
  read = λ s. (next s.reads, record s { reads = rest s.reads });
  turns = λ s. s.turns;
}

pub no_error : {e : Error} {u : Unit {0}} → ok u ≡ err e → is_crc_error e ≡ false
no_error h = cc

abbrev pub scripted_Observed : Observed scripted
scripted_Observed = record {
  sent = λ s. s.written;
  write_sends = λ b s. refl;
  read_keeps = λ s. refl;
  reset_keeps = λ s. refl;
  timeout_keeps = λ t s. refl;
  write_error = λ b s e h. no_error h;
  reset_error = λ s e h. no_error h;
  timeout_error = λ t s e h. no_error h;
}
