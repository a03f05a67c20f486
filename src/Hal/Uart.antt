-- ===== src/Hal/Uart.antt =====
-- hal/i_uart.h: both operations are non-blocking, and `write` may accept a part of the buffer.
use agentic_engineering_trai.Base.{ℕ, List, [], ◌∷◌, ◌++◌, take}

-- `rx` holds the bytes that reads will give until the UART is empty; `accepts` the numbers that
-- successive writes return (0 at its end); `wire` the bytes accepted so far.
pub record Uart : Type 0 where
  pub rx : List ℕ
  pub accepts : List ℕ
  pub wire : List ℕ

abbrev pub next_or_zero : List ℕ → ℕ
next_or_zero [] = 0
next_or_zero (n ∷ ns) = n

abbrev pub later : List ℕ → List ℕ
later [] = []
later (n ∷ ns) = ns

-- A return value larger than the buffer still puts only the buffer on the wire.
unfoldable pub write : Uart → List ℕ → Uart × ℕ
write u bytes =
    let n = next_or_zero u.accepts in
    (record u { accepts = later u.accepts; wire = u.wire ++ take n bytes }, n)
