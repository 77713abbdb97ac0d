-- ===== src/Model/Names.antt =====
-- protocol.go, `ElementName`: the application's name of each logical address.
pub mod Distinct
use Prim.Native.String.{String, ◌++◌ as str_append}
use vkt7d.Common.{
  ℕ, zero, suc, ◌+◌, ◌/◌, ◌%◌, ◌<◌, ltb, if◌then◌else◌, List, [], ◌∷◌, length, get_or,
}

abbrev pub names : List String
names =
    "t1_1" ∷ "t2_1" ∷ "t3_1" ∷ "V1_1" ∷ "V2_1" ∷ "V3_1" ∷ "M1_1" ∷ "M2_1" ∷ "M3_1" ∷ "P1_1" ∷ "P2_1"
    ∷ "Mg_1" ∷ "Qo_1" ∷ "Qg_1" ∷ "dt_1" ∷ "tx" ∷ "ta" ∷ "BNP_1" ∷ "VOC_1" ∷ "G1_1" ∷ "G2_1" ∷ "G3_1"
    ∷ "t1_2" ∷ "t2_2" ∷ "t3_2" ∷ "V1_2" ∷ "V2_2" ∷ "V3_2" ∷ "M1_2" ∷ "M2_2" ∷ "M3_2" ∷ "P1_2"
    ∷ "P2_2" ∷ "Mg_2" ∷ "Qo_2" ∷ "Qg_2" ∷ "dt_2" ∷ "reserved_37" ∷ "reserved_38" ∷ "BNP_2" ∷ "VOC_2"
    ∷ "G1_2" ∷ "G2_2" ∷ "G3_2" ∷ "t_unit" ∷ "G_unit" ∷ "V_unit" ∷ "M_unit" ∷ "P_unit" ∷ "dt_unit"
    ∷ "tx_unit" ∷ "ta_unit" ∷ "Mg_unit" ∷ "Qo_unit" ∷ "Qg_unit" ∷ "BNP_unit" ∷ "VOC_unit" ∷ "t_dec"
    ∷ "G_dec_reserved" ∷ "V1_dec" ∷ "M1_dec" ∷ "P1_dec" ∷ "dt_dec" ∷ "tx_dec" ∷ "ta_dec" ∷ "Mg_dec"
    ∷ "Qo1_dec" ∷ "t2_dec_reserved" ∷ "G2_dec_reserved" ∷ "V2_dec" ∷ "M2_dec" ∷ "P2_dec" ∷ "dt2_dec"
    ∷ "tx2_dec" ∷ "ta2_dec" ∷ "Mg2_dec" ∷ "Qo2_dec" ∷ "NS_1" ∷ "NS_2" ∷ "QntNS_1" ∷ "QntNS_2" ∷ "DI"
    ∷ "P3" ∷ []

-- `strconv.Itoa`; the fuel bounds the number of digits.
digit : ℕ → String
digit d = get_or ("0" ∷ "1" ∷ "2" ∷ "3" ∷ "4" ∷ "5" ∷ "6" ∷ "7" ∷ "8" ∷ "9" ∷ []) d ""

itoa : ℕ → ℕ → String
itoa zero n = ""
itoa (suc fuel) n =
    let front = itoa fuel (n / 10) in
    if ltb n 10 then digit n else str_append front (digit (n % 10))

-- The source tests `a >= 0` too, which an address always passes.
unfoldable pub element_name : ℕ → String
unfolding itoa digit
element_name a =
    if ltb a (length names) then get_or names a "" else str_append "element_" (itoa (suc a) a)
