-- ===== src/LoaderGen/Bootparam/Machine.antt =====
-- src/loader_gen/x86_64/bootparam.rs: the tables of the machine: `edid_info`, `sys_desc_table` and
-- `olpc_ofw_header`.
use linux_loader.Base.{ℕ, List, ◌≡◌, refl}
use linux_loader.LoaderGen.{field}
use linux_loader.LoaderGen.Pod.{Layout, num, array, ◌⊗◌, ◌&◌, El, read, array_field}
use linux_loader.LoaderGen.Pod.Struct.{Struct}

pub record EdidInfo : Type 0 where
  pub dummy : List ℕ

unfoldable pub edid_info_of_bytes : List ℕ → EdidInfo
edid_info_of_bytes bs = record { dummy = array_field bs 0 128 1 }

abbrev edid_info_layout : Layout
edid_info_layout = array 128 (num 1)

abbrev edid_info_of_el : El edid_info_layout → EdidInfo
edid_info_of_el (dummy) = record { dummy = dummy }

abbrev edid_info_to_el : EdidInfo → El edid_info_layout
edid_info_to_el x = x.dummy

pub edid_info_of_bytes_lem :
    (bs : List ℕ) → edid_info_to_el (edid_info_of_bytes bs) ≡ read edid_info_layout bs 0
unfolding edid_info_of_bytes read
edid_info_of_bytes_lem bs = refl

abbrev pub edid_info_struct : Struct EdidInfo
edid_info_struct = record {
  layout = edid_info_layout;
  to_el = edid_info_to_el;
  of_el = edid_info_of_el;
  of_bytes = edid_info_of_bytes;
  of_el-to_el = λ x. refl;
  to_el-of_bytes = edid_info_of_bytes_lem;
}

pub record SysDescTable : Type 0 where
  pub length : ℕ
  pub table : List ℕ

unfoldable pub sys_desc_table_of_bytes : List ℕ → SysDescTable
sys_desc_table_of_bytes bs = record { length = field bs 0 2; table = array_field bs 2 14 1 }

abbrev sys_desc_table_layout : Layout
sys_desc_table_layout = num 2 ⊗ array 14 (num 1)

abbrev sys_desc_table_of_el : El sys_desc_table_layout → SysDescTable
sys_desc_table_of_el (length & table) = record { length = length; table = table }

abbrev sys_desc_table_to_el : SysDescTable → El sys_desc_table_layout
sys_desc_table_to_el x = x.length & x.table

pub sys_desc_table_of_bytes_lem :
    (bs : List ℕ)
    → sys_desc_table_to_el (sys_desc_table_of_bytes bs) ≡ read sys_desc_table_layout bs 0
unfolding sys_desc_table_of_bytes read
sys_desc_table_of_bytes_lem bs = refl

abbrev pub sys_desc_table_struct : Struct SysDescTable
sys_desc_table_struct = record {
  layout = sys_desc_table_layout;
  to_el = sys_desc_table_to_el;
  of_el = sys_desc_table_of_el;
  of_bytes = sys_desc_table_of_bytes;
  of_el-to_el = λ x. refl;
  to_el-of_bytes = sys_desc_table_of_bytes_lem;
}

pub record OlpcOfwHeader : Type 0 where
  pub ofw_magic : ℕ
  pub ofw_version : ℕ
  pub cif_handler : ℕ
  pub irq_desc_table : ℕ

unfoldable pub olpc_ofw_header_of_bytes : List ℕ → OlpcOfwHeader
olpc_ofw_header_of_bytes bs = record {
  ofw_magic = field bs 0 4;
  ofw_version = field bs 4 4;
  cif_handler = field bs 8 4;
  irq_desc_table = field bs 12 4;
}

abbrev olpc_ofw_header_layout : Layout
olpc_ofw_header_layout = num 4 ⊗ num 4 ⊗ num 4 ⊗ num 4

abbrev olpc_ofw_header_of_el : El olpc_ofw_header_layout → OlpcOfwHeader
olpc_ofw_header_of_el (ofw_magic & ofw_version & cif_handler & irq_desc_table) = record {
  ofw_magic = ofw_magic;
  ofw_version = ofw_version;
  cif_handler = cif_handler;
  irq_desc_table = irq_desc_table;
}

abbrev olpc_ofw_header_to_el : OlpcOfwHeader → El olpc_ofw_header_layout
olpc_ofw_header_to_el x = x.ofw_magic & x.ofw_version & x.cif_handler & x.irq_desc_table

pub olpc_ofw_header_of_bytes_lem :
    (bs : List ℕ)
    → olpc_ofw_header_to_el (olpc_ofw_header_of_bytes bs) ≡ read olpc_ofw_header_layout bs 0
unfolding olpc_ofw_header_of_bytes read
olpc_ofw_header_of_bytes_lem bs = refl

abbrev pub olpc_ofw_header_struct : Struct OlpcOfwHeader
olpc_ofw_header_struct = record {
  layout = olpc_ofw_header_layout;
  to_el = olpc_ofw_header_to_el;
  of_el = olpc_ofw_header_of_el;
  of_bytes = olpc_ofw_header_of_bytes;
  of_el-to_el = λ x. refl;
  to_el-of_bytes = olpc_ofw_header_of_bytes_lem;
}
