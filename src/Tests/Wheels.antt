-- ===== src/Tests/Wheels.antt =====
-- The wheels of tasks/build_.py.
use cdbx.Base.{◌≡◌, refl, [], ◌∷◌, some, none, Text, codes}
use cdbx.Wheels.{PythonSpec, arches_for, container_runs}
use cdbx.Wheels.Tags.{renames}

abbrev wheel : Text
wheel = codes "cdbx-1-cp313-manylinux_2_17_x86_64.manylinux2014_x86_64.whl"

renamed :
    renames (wheel ∷ codes "x.txt" ∷ [])
    ≡ some ((wheel, codes "cdbx-1-cp313-manylinux2014_x86_64.whl") ∷ [])
unfolding renames cdbx.Base.starts_with
renamed = refl

abbrev spec : PythonSpec
spec =
    (codes "313", (codes "manylinux", codes "2014") ∷ (codes "musllinux", codes "1_1") ∷ [])
    ∷ (codes "27", (codes "manylinux", codes "1") ∷ [])
    ∷ (codes "36", (codes "manylinux", codes "1") ∷ [])
    ∷ []

runs :
    container_runs ((codes "i686", spec) ∷ []) (arches_for (codes "i686") none)
    ≡ some (
        record {
          libc = codes "manylinux";
          version = codes "1";
          arch = codes "i686";
          prefix = codes "linux32";
          pythons = codes "27 36";
        }
        ∷ record {
          libc = codes "manylinux";
          version = codes "2014";
          arch = codes "i686";
          prefix = codes "linux32";
          pythons = codes "313";
        }
        ∷ record {
          libc = codes "musllinux";
          version = codes "_1_1";
          arch = codes "i686";
          prefix = codes "linux32";
          pythons = codes "313";
        }
        ∷ [])
unfolding container_runs arches_for
runs = refl
