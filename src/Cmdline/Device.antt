-- ===== src/Cmdline/Device.antt =====
-- `Cmdline::add_virtio_mmio_device` and `guestusize_to_str` of src/cmdline/mod.rs.
use linux_loader.Base.{ℕ, ◌/◌, ◌%◌, ◌*◌, ◌^◌, Option, none, some, ◌++◌, ◌==◌, if◌then◌else◌}
use linux_loader.Base.Outcome.{raise_if, ◌>>◌}
use linux_loader.Text.{Str, codes}
use linux_loader.Text.Number.{decimal, hexadecimal}
use linux_loader.Cmdline.{Method, mmio_size, insert_str}

abbrev pub kb_mult : ℕ
kb_mult = 2 ^ 10

abbrev pub mb_mult : ℕ
mb_mult = kb_mult * 2 ^ 10

abbrev pub gb_mult : ℕ
gb_mult = mb_mult * 2 ^ 10

unfoldable pub guestusize_to_str : ℕ → Str
guestusize_to_str size =
    if size % gb_mult == 0
    then decimal (size / gb_mult) ++ codes "G"
    else if size % mb_mult == 0
    then decimal (size / mb_mult) ++ codes "M"
    else if size % kb_mult == 0
    then decimal (size / kb_mult) ++ codes "K"
    else decimal size

-- `format!(":{}", id)`, if there is an id.
unfoldable pub id_suffix : Option ℕ → Str
id_suffix none = codes ""
id_suffix (some id) = codes ":" ++ decimal id

unfoldable pub device_str : ℕ → ℕ → ℕ → Option ℕ → Str
device_str size baseaddr irq id =
    codes "virtio_mmio.device="
    ++ (guestusize_to_str size
        ++ (codes "@0x" ++ (hexadecimal baseaddr ++ (codes ":" ++ (decimal irq ++ id_suffix id)))))

unfoldable pub add_virtio_mmio_device : ℕ → ℕ → ℕ → Option ℕ → Method (Unit {0})
add_virtio_mmio_device size baseaddr irq id = do
  raise_if (size == 0) mmio_size
  insert_str (device_str size baseaddr irq id)
