-- ===== src/Ack/Tests.antt =====
-- `AckSerial` on the first packet of a device and of a monitor.
use gitee_fork_gateway.Prelude.{
  ℕ, ◌≡◌, refl, ◌≤◌, ◌<◌, ◌⊎◌, Bool, true, false, none, some, List, [], ◌∷◌, arith,
}
use gitee_fork_gateway.Ack.{ack_serial}
use gitee_fork_gateway.Ack.Serial.{Trimmed, Answers, ack_serial_lem}

-- `TTG-00042`, with a space and a zero byte at its end.
abbrev device : List ℕ
device = 84 ∷ 84 ∷ 71 ∷ 45 ∷ 48 ∷ 48 ∷ 48 ∷ 52 ∷ 50 ∷ 32 ∷ 0 ∷ []

-- `MONITOR_T1`.
abbrev monitor : List ℕ
monitor = 77 ∷ 79 ∷ 78 ∷ 73 ∷ 84 ∷ 79 ∷ 82 ∷ 95 ∷ 84 ∷ 49 ∷ []

device_serial :
    ack_serial none (some (device, 11)) []
    ≡ some (true, 84 ∷ 84 ∷ 71 ∷ 45 ∷ 48 ∷ 48 ∷ 48 ∷ 52 ∷ 50 ∷ [], 0)
unfolding ack_serial
device_serial = refl

monitor_serial : ack_serial none (some (monitor, 10)) [] ≡ some (true, 84 ∷ 49 ∷ [], 1)
unfolding ack_serial
monitor_serial = refl

ack_serial_lem_example :
    ((11 < 8) × (ack_serial none (some (device, 11)) [] ≡ some (false, [], 0)))
    ⊎ ((8 ≤ 11)
        × (m : ℕ) × (answer : Bool × List ℕ × ℕ) × (ack_serial none (some (device, 11)) []
            ≡ some answer)
        × (8 ≤ m)
        × Trimmed device 11 m
        × Answers device m answer)
ack_serial_lem_example = ack_serial_lem device [] 11 (omega arith)
