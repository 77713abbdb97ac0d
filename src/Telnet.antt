-- ===== src/Telnet.antt =====
-- internal/rfc2217/telnet.go: the decoder that takes the Telnet framing off a byte stream, and
-- the protocol constants of internal/rfc2217/rfc2217.go that it uses. The three callbacks of
-- `feed` are the constructors of `Event`: a call of `feed` returns the calls it makes, in order.
-- `telnetDecoder.state` is a byte in the source; it only ever holds the eight constants, which
-- are the constructors of `Phase`.
pub mod Wire
pub mod Stream
pub mod Size
use vkt7d.Common.{ℕ, ◌≡◌, Bool, true, false, List, [], ◌∷◌, ◌++◌, ◌==◌, if◌then◌else◌, Bytes}

abbrev pub iac : ℕ
iac = 0xff

abbrev pub se : ℕ
se = 0xf0

abbrev pub sb : ℕ
sb = 0xfa

abbrev pub will : ℕ
will = 0xfb

abbrev pub wont : ℕ
wont = 0xfc

abbrev pub do_ : ℕ
do_ = 0xfd

abbrev pub dont : ℕ
dont = 0xfe

pub data Phase : Type 0 where
  in_data in_iac in_will in_wont in_do in_dont in_sb in_sb_iac : Phase

pub record Decoder : Type 0 where
  pub phase : Phase
  pub sub : Bytes

-- `var decoder telnetDecoder`
abbrev pub initial : Decoder
initial = record { phase = in_data; sub = [] }

pub data Event : Type 0 where
  on_data : Bytes → Event
  on_negotiation : ℕ → ℕ → Event
  on_subnegotiation : Bytes → Event

-- The variables of `feed`'s loop: the decoder, the local buffer, and the calls made so far.
pub record Loop : Type 0 where
  pub decoder : Decoder
  pub buffer : Bytes
  pub calls : List Event

-- `flush`: one call if the buffer is not empty, and the buffer is empty afterwards.
abbrev pub flushed : Bytes → List Event
flushed [] = []
flushed (b ∷ bs) = on_data (b ∷ bs) ∷ []

abbrev flush : Loop → Loop
flush l = record l { buffer = []; calls = l.calls ++ flushed l.buffer }

abbrev enter : Phase → Loop → Loop
enter p l = record l { decoder = record { phase = p; sub = l.decoder.sub } }

abbrev enter_with : Phase → Bytes → Loop → Loop
enter_with p sub l = record l { decoder = record { phase = p; sub = sub } }

abbrev append : ℕ → Loop → Loop
append b l = record l { buffer = l.buffer ++ b ∷ [] }

abbrev call : Event → Loop → Loop
call e l = record l { calls = l.calls ++ e ∷ [] }

-- `stateToCommand`
unfoldable pub state_to_command : Phase → ℕ
state_to_command in_will = will
state_to_command in_wont = wont
state_to_command in_do = do_
state_to_command in_dont = dont
state_to_command _ = 0

-- `case telnetIAC`
unfoldable pub after_iac : ℕ → Loop → Loop
after_iac b l =
    if b == iac
    then enter in_data (append iac l)
    else if b == will
    then enter in_will l
    else if b == wont
    then enter in_wont l
    else if b == do_
    then enter in_do l
    else if b == dont
    then enter in_dont l
    else if b == sb
    then enter_with in_sb [] l
    else enter in_data l

-- `case telnetSBIAC`
unfoldable pub after_sb_iac : ℕ → Loop → Loop
after_sb_iac b l =
    if b == iac
    then enter_with in_sb (l.decoder.sub ++ iac ∷ []) l
    else if b == se
    then enter in_data (call (on_subnegotiation l.decoder.sub) l)
    else enter in_data l

-- `case telnetWILL, telnetWONT, telnetDO, telnetDONT`
abbrev negotiate : Phase → ℕ → Loop → Loop
negotiate p b l = enter in_data (call (on_negotiation (state_to_command p) b) l)

-- The body of the loop, on the phase that the byte meets.
unfoldable pub step_in : Phase → ℕ → Loop → Loop
unfolding after_iac after_sb_iac state_to_command
step_in in_data b l = if b == iac then enter in_iac (flush l) else append b l
step_in in_iac b l = after_iac b l
step_in in_will b l = negotiate in_will b l
step_in in_wont b l = negotiate in_wont b l
step_in in_do b l = negotiate in_do b l
step_in in_dont b l = negotiate in_dont b l
step_in in_sb b l =
    if b == iac then enter in_sb_iac l else enter_with in_sb (l.decoder.sub ++ b ∷ []) l
step_in in_sb_iac b l = after_sb_iac b l

abbrev pub step : Loop → ℕ → Loop
step l b = step_in l.decoder.phase b l

unfoldable pub loop : Loop → Bytes → Loop
unfolding step_in
loop l [] = flush l
loop l (b ∷ bs) = loop (step l b) bs

abbrev pub Fed : Type 0
Fed = record { decoder : Decoder; events : List Event }

unfoldable pub feed : Decoder → Bytes → Fed
unfolding loop
feed d input =
    let l = loop (record { decoder = d; buffer = []; calls = [] }) input in
    record { decoder = l.decoder; events = l.calls }

-- The loops of `Write` and `command` in rfc2217.go: each IAC is sent twice.
unfoldable pub escape : Bytes → Bytes
escape [] = []
escape (x ∷ xs) = if x == iac then x ∷ iac ∷ escape xs else x ∷ escape xs
