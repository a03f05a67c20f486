-- ===== src/Examples/Tools.antt =====
-- The tools on concrete captures.
use agentic_engineering_trai.Base.{ℕ, ◌<◌, ◌≡◌, refl, arith, List, [], ◌∷◌, some, length}
use agentic_engineering_trai.Common.Text.{codes}
use agentic_engineering_trai.Common.Crc16.{crc16_ccitt}
use agentic_engineering_trai.Protocol.Wire.{request, ping, put_u16, header_size}
use agentic_engineering_trai.Protocol.FrameWriter.{frame_bytes, covered_bytes}
use agentic_engineering_trai.Protocol.FrameParser.Stream.{Message, stream_bytes}
use agentic_engineering_trai.Tools.C1linkDump.{dump_capture, scan_bytes}
use agentic_engineering_trai.Tools.C1linkDump.Capture.{
  Spells, at_end, blank, comment, byte, digit, lower, upper,
}
use agentic_engineering_trai.Tools.C1linkDump.Frames.{lines_of, dump_capture-stream_bytes}
use agentic_engineering_trai.Tools.C1linkDump.Sound.{IsSound, scan_bytes-IsSound}

abbrev hello : Message
hello = record { type = request; seq = 1; msg_id = ping; body = [] }

abbrev captured : List ℕ
captured = codes "# ping\nA5 5a 10 01 01 01 00 00 41 ff "

captured-Spells : Spells captured (stream_bytes (hello ∷ []))
unfolding frame_bytes covered_bytes put_u16 crc16_ccitt
captured-Spells = comment (codes " ping") (omega arith) (
    byte (upper {v = 0} (omega arith)) (digit {v = 5} (omega arith)) (
      blank refl (
        byte (digit {v = 5} (omega arith)) (lower {v = 0} (omega arith)) (
          blank refl (
            byte (digit {v = 1} (omega arith)) (digit {v = 0} (omega arith)) (
              blank refl (
                byte (digit {v = 0} (omega arith)) (digit {v = 1} (omega arith)) (
                  blank refl (
                    byte (digit {v = 0} (omega arith)) (digit {v = 1} (omega arith)) (
                      blank refl (
                        byte (digit {v = 0} (omega arith)) (digit {v = 1} (omega arith)) (
                          blank refl (
                            byte (digit {v = 0} (omega arith)) (digit {v = 0} (omega arith)) (
                              blank refl (
                                byte (digit {v = 0} (omega arith)) (digit {v = 0} (omega arith)) (
                                  blank refl (
                                    byte (digit {v = 4} (omega arith)) (digit {v = 1} (omega arith))
                                      (blank refl (
                                        byte (lower {v = 5} (omega arith))
                                          (lower {v = 5} (omega arith))
                                          (blank refl (at_end)))))))))))))))))))))

dump_capture-stream_bytes_example :
    dump_capture 2 (some captured) ≡ record { exit = 0; lines = lines_of 0 (hello ∷ []) }
dump_capture-stream_bytes_example =
    dump_capture-stream_bytes hello [] captured captured-Spells (omega arith, tt)

-- A start of a frame whose length is too large, and some bytes behind it.
abbrev broken : List ℕ
broken = 0xA5 ∷ 0x5A ∷ 0x10 ∷ 0x01 ∷ 0x07 ∷ 0x01 ∷ 0xFF ∷ 0xFF ∷ 0x00 ∷ []

scan_bytes-IsSound_example :
    IsSound broken (scan_bytes broken) × (length (scan_bytes broken).rest < header_size)
scan_bytes-IsSound_example = scan_bytes-IsSound broken
