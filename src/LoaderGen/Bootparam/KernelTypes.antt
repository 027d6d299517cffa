-- ===== src/LoaderGen/Bootparam/KernelTypes.antt =====
-- src/loader_gen/x86_64/bootparam.rs: `__kernel_fd_set` and `__kernel_fsid_t`. The numbers of the
-- latter, of type `c_int`, are kept as their 32 bits.
use linux_loader.Base.{ℕ, List, ◌≡◌, refl}
use linux_loader.LoaderGen.Pod.{Layout, num, array, El, read, array_field}
use linux_loader.LoaderGen.Pod.Struct.{Struct}

pub record KernelFdSet : Type 0 where
  pub fds_bits : List ℕ

unfoldable pub kernel_fd_set_of_bytes : List ℕ → KernelFdSet
kernel_fd_set_of_bytes bs = record { fds_bits = array_field bs 0 16 8 }

abbrev kernel_fd_set_layout : Layout
kernel_fd_set_layout = array 16 (num 8)

abbrev kernel_fd_set_of_el : El kernel_fd_set_layout → KernelFdSet
kernel_fd_set_of_el (fds_bits) = record { fds_bits = fds_bits }

abbrev kernel_fd_set_to_el : KernelFdSet → El kernel_fd_set_layout
kernel_fd_set_to_el x = x.fds_bits

pub kernel_fd_set_of_bytes_lem :
    (bs : List ℕ) → kernel_fd_set_to_el (kernel_fd_set_of_bytes bs) ≡ read kernel_fd_set_layout bs 0
unfolding kernel_fd_set_of_bytes read
kernel_fd_set_of_bytes_lem bs = refl

abbrev pub kernel_fd_set_struct : Struct KernelFdSet
kernel_fd_set_struct = record {
  layout = kernel_fd_set_layout;
  to_el = kernel_fd_set_to_el;
  of_el = kernel_fd_set_of_el;
  of_bytes = kernel_fd_set_of_bytes;
  of_el-to_el = λ x. refl;
  to_el-of_bytes = kernel_fd_set_of_bytes_lem;
}

pub record KernelFsid : Type 0 where
  pub val : List ℕ

unfoldable pub kernel_fsid_of_bytes : List ℕ → KernelFsid
kernel_fsid_of_bytes bs = record { val = array_field bs 0 2 4 }

abbrev kernel_fsid_layout : Layout
kernel_fsid_layout = array 2 (num 4)

abbrev kernel_fsid_of_el : El kernel_fsid_layout → KernelFsid
kernel_fsid_of_el (val) = record { val = val }

abbrev kernel_fsid_to_el : KernelFsid → El kernel_fsid_layout
kernel_fsid_to_el x = x.val

pub kernel_fsid_of_bytes_lem :
    (bs : List ℕ) → kernel_fsid_to_el (kernel_fsid_of_bytes bs) ≡ read kernel_fsid_layout bs 0
unfolding kernel_fsid_of_bytes read
kernel_fsid_of_bytes_lem bs = refl

abbrev pub kernel_fsid_struct : Struct KernelFsid
kernel_fsid_struct = record {
  layout = kernel_fsid_layout;
  to_el = kernel_fsid_to_el;
  of_el = kernel_fsid_of_el;
  of_bytes = kernel_fsid_of_bytes;
  of_el-to_el = λ x. refl;
  to_el-of_bytes = kernel_fsid_of_bytes_lem;
}
