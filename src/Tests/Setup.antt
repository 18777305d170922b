-- ===== src/Tests/Setup.antt =====
-- setup.py on the extension of this package.
use cdbx.Base.{◌≡◌, refl, [], ◌∷◌, some, none, Text, codes}
use cdbx.Setup.{Extension, name_macros, init_extension, find_version, read_cflags}

abbrev plain : Extension
plain = record {
  name = codes "cdbx._cdb";
  define_macros = [];
  undef_macros = [];
  include_dirs = codes "cdbx" ∷ [];
  depends = codes "cdbx/cdbx.h" ∷ codes "cdbx/.././cext.h" ∷ [];
  extra_compile_args = [];
  libraries = [];
}

initialized : init_extension (codes "0.2") plain ≡ record plain {
  define_macros = (codes "EXT_VERSION", codes "0.2") ∷ [];
  include_dirs = codes "cdbx" ∷ codes "." ∷ [];
}
unfolding init_extension cdbx.Base.starts_with cdbx.Base.join
initialized = refl

named :
    name_macros plain
    ≡ some (record plain {
      define_macros = (codes "EXT_PACKAGE", codes "cdbx") ∷ (codes "EXT_MODULE", codes "_cdb") ∷ [];
    })
unfolding name_macros
named = refl

-- A second build of a module without a package fails.
twice :
    name_macros (record plain { name = codes "cdb"; undef_macros = codes "EXT_PACKAGE" ∷ [] })
    ≡ none
unfolding name_macros
twice = refl

version_line :
    find_version (codes "import x" ∷ codes "__version__ = '0.2.9'" ∷ []) ≡ some (codes "0.2.9")
unfolding find_version cdbx.Base.starts_with cdbx.Base.is_space
version_line = refl

flags :
    read_cflags (codes " -O0 -g" ∷ codes "# no" ∷ codes "--coverage" ∷ [])
    ≡ codes "-O0" ∷ codes "-g" ∷ codes "--coverage" ∷ []
unfolding read_cflags cdbx.Base.starts_with
flags = refl
