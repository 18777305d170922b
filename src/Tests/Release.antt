-- ===== src/Tests/Release.antt =====
-- tasks/_version.py on a small download page.
use cdbx.Base.{◌≡◌, refl, true, false, List, [], ◌∷◌, ◌++◌, some, none, Text, codes}
use cdbx.Release.{Job, write_lines, userdoc, changes_file, download}
use cdbx.Release.Blocks.{Segment, plain, stable, dev, lines_of, all_updated, write_lines-lines_of}

abbrev release : Job
release = record {
  version = codes "1.2";
  isdev = false;
  hasstable = false;
  dlpath = [];
  newdev = [];
}

abbrev page : List Segment
page =
    plain (codes "get @@VERSION@@\n")
    ∷ stable (codes ".. begin stable\n") (codes "@@PATH@@x-@@VERSION@@\n" ∷ [])
        (codes ".. end stable\n")
    ∷ dev (codes ".. begin dev\n") (codes "dev\n" ∷ []) (codes ".. end dev\n")
    ∷ []

page_updated :
    all_updated release page
    ≡ codes "get 1.2\n.. begin stable\nx-1.2\n.. end stable\n.. begin dev\n.. end dev\n"
unfolding write_lines
page_updated = refl

first_page : download (codes "2.dev1") none (codes "@@PATH@@\n" ∷ []) ≡ some (codes "dev/\n")
unfolding download
first_page = refl

both_lines :
    userdoc (λ s. s) (codes "1.2.3") (codes "version = 1\n" ∷ codes "release = 1\n" ∷ [])
    ≡ some (codes "version = 1.2\n" ∷ codes "release = 1.2.3\n" ∷ [])
unfolding userdoc
both_lines = refl

newest_changes :
    changes_file (codes "2") (codes "Changes with version \n" ∷ [])
    ≡ codes "Changes with version 2\n" ∷ []
unfolding changes_file cdbx.Base.is_space
newest_changes = refl

write_lines-lines_of_example : write_lines release [] [] (lines_of page) ≡ all_updated release page
unfolding cdbx.Base.starts_with
write_lines-lines_of_example =
    write_lines-lines_of release page
      ((refl, refl), ((refl, (refl, tt), refl), ((refl, refl, (refl, tt), refl), tt)))
