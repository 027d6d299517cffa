-- ===== src/Cmdline/Runs.antt =====
-- Sequences of insertions, and texts of devices, of src/cmdline/mod.rs at concrete inputs.
use linux_loader.Base.{ℕ, [], ◌∷◌, none, some, ◌≡◌, refl, arith}
use linux_loader.Base.Outcome.{ok}
use linux_loader.Text.{
  codes, len, bytes, encode_char, trim, trim_start, trim_end, is_whitespace, join,
}
use linux_loader.Cmdline.{Cmdline, new, valid_char}
use linux_loader.Cmdline.Device.{device_str, guestusize_to_str, id_suffix}
use linux_loader.Text.Number.{decimal, hexadecimal}
use linux_loader.Cmdline.DeviceText.{read_device, read_device-device_str}
use linux_loader.Cmdline.Sequence.{insert_all, insert_all-new}

-- Opens what the examples compute with.
empty : ℕ → Cmdline
unfolding new valid_char len bytes encode_char trim trim_start trim_end is_whitespace join
empty capacity = record { boot_args = []; init_args = []; capacity = capacity }

insert_all-new_example :
    insert_all
      (codes " quiet" ∷ codes "ro" ∷ [])
      (record { boot_args = []; init_args = []; capacity = 9 })
    ≡ (ok tt, record { boot_args = codes "quiet ro"; init_args = []; capacity = 9 })
unfolding empty
insert_all-new_example =
    insert_all-new (codes " quiet" ∷ codes "ro" ∷ []) 9
      (record { boot_args = []; init_args = []; capacity = 9 }) refl (omega arith)
      (refl, refl, (refl, refl, tt)) (omega arith)

device_test : device_str 0x1000 0x1000 5 none ≡ codes "virtio_mmio.device=4K@0x1000:5"
unfolding device_str guestusize_to_str decimal hexadecimal id_suffix
device_test = refl

read_device-device_str_example :
    read_device (device_str 0x1000 0x1000 5 (some 42)) ≡ some (0x1000, 0x1000, 5, some 42)
read_device-device_str_example =
    read_device-device_str 0x1000 0x1000 5 (some 42) (omega arith) (omega arith) (omega arith)
      (omega arith)
