-- ===== src/LoaderGen/Bootparam/Values.antt =====
-- The values of the structures of src/loader_gen/x86_64/bootparam.rs that a boot loader hands over,
-- and their bytes: `ByteValued` of `setup_header` and `boot_params`, implemented in src/loader/mod.rs.
use linux_loader.Base.{replicate, ◌≡◌, refl}
use linux_loader.Memory.{ByteValued}
use linux_loader.LoaderGen.Bytes.{are_bytes}
use linux_loader.LoaderGen.Pod.{is_dense}
use linux_loader.LoaderGen.Pod.Struct.{
  as_slice, byte_valued, Value, Bytes, bytes_of_value, bytes_of_value-IsEquiv, as_slice-of_bytes,
}
use linux_loader.LoaderGen.Bootparam.{SetupHeader}
use linux_loader.LoaderGen.Bootparam.Header.{setup_header_struct}
use linux_loader.LoaderGen.Bootparam.BootParams.{BootParams, boot_params_of_bytes}
use linux_loader.LoaderGen.Bootparam.BootParamsLayout.{boot_params_struct}
use mathlib.Core.Equiv.{IsEquiv}

abbrev pub setup_header_bytes : ByteValued SetupHeader
setup_header_bytes = byte_valued setup_header_struct

abbrev pub boot_params_bytes : ByteValued BootParams
boot_params_bytes = byte_valued boot_params_struct

-- `Default`: all bytes are zero.
unfoldable pub boot_params_default : BootParams
boot_params_default = boot_params_of_bytes (replicate 4096 0)

-- That a `boot_params` is its bytes is sound: the values whose every field has the width of its type
-- correspond to the strings of 4096 bytes, one to one.
pub boot_params_bytes-IsEquiv :
    IsEquiv {A = Value boot_params_struct} {B = Bytes 4096} (bytes_of_value boot_params_struct)
unfolding is_dense
boot_params_bytes-IsEquiv = bytes_of_value-IsEquiv boot_params_struct refl

-- The default page is 4096 zeros.
pub boot_params_default-as_slice :
    as_slice boot_params_struct boot_params_default ≡ replicate 4096 0
unfolding boot_params_default is_dense are_bytes
boot_params_default-as_slice =
    as_slice-of_bytes boot_params_struct (replicate 4096 0) refl refl refl
