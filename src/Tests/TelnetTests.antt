-- ===== src/Tests/TelnetTests.antt =====
-- internal/rfc2217/telnet_test.go, and the decoder's theorems at concrete streams.
use vkt7d.Common.{◌≡◌, refl, List, [], ◌∷◌, ◌++◌, arith}
use vkt7d.Telnet.{
  Decoder, in_data, in_sb, initial, on_data, on_negotiation, on_subnegotiation, feed,
}
use vkt7d.Telnet.Stream.{stream, feed-append}
use vkt7d.Telnet.Wire.{
  Segment, text, option, parameters, broken, command, v_will, wires, meanings, feed-wires,
}

-- TestTelnetDecoderEscapedIAC
escaped_iac :
    (feed initial (65 ∷ 0xff ∷ 0xff ∷ 66 ∷ [])).events
    ≡ on_data (65 ∷ []) ∷ on_data (0xff ∷ 66 ∷ []) ∷ []
unfolding feed
escaped_iac = refl

-- TestTelnetDecoderSubnegotiationAcrossReads
across_reads :
    (feed
      (feed initial (0xff ∷ 0xfa ∷ 44 ∷ 1 ∷ 0 ∷ [])).decoder
      (0 ∷ 0x4b ∷ 0x20 ∷ 0xff ∷ 0xf0 ∷ [])).events
    ≡ on_subnegotiation (44 ∷ 1 ∷ 0 ∷ 0 ∷ 0x4b ∷ 0x20 ∷ []) ∷ []
unfolding feed
across_reads = refl

-- TestTelnetDecoderNegotiation
negotiation_test : (feed initial (0xff ∷ 0xfb ∷ 44 ∷ [])).events ≡ on_negotiation 0xfb 44 ∷ []
unfolding feed
negotiation_test = refl

abbrev segments : List Segment
segments =
    text (1 ∷ 0xff ∷ [])
    ∷ option v_will 44
    ∷ parameters (44 ∷ 0xff ∷ [])
    ∷ broken (9 ∷ []) 7
    ∷ command 0xf1
    ∷ text (2 ∷ [])
    ∷ []

feed-wires_example :
    (stream (feed initial (wires segments)).events ≡ meanings segments)
    × ((feed initial (wires segments)).decoder.phase ≡ in_data)
feed-wires_example = feed-wires initial segments refl (omega arith)

abbrev inside : Decoder
inside = record { phase = in_sb; sub = 44 ∷ [] }

feed-append_example :
    (stream (feed inside ((7 ∷ 0xff ∷ []) ++ 0xf0 ∷ 5 ∷ [])).events
      ≡ stream (feed inside (7 ∷ 0xff ∷ [])).events
        ++ stream (feed (feed inside (7 ∷ 0xff ∷ [])).decoder (0xf0 ∷ 5 ∷ [])).events)
    × ((feed inside ((7 ∷ 0xff ∷ []) ++ 0xf0 ∷ 5 ∷ [])).decoder
        ≡ (feed (feed inside (7 ∷ 0xff ∷ [])).decoder (0xf0 ∷ 5 ∷ [])).decoder)
feed-append_example = feed-append inside (7 ∷ 0xff ∷ []) (0xf0 ∷ 5 ∷ [])
