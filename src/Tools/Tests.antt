-- ===== src/Tools/Tests.antt =====
-- The theorems on the string helpers at short strings.
use pglite_build.Prelude.{zeros, ◌≡◌, refl, some, codes}
use pglite_build.Tools.{strcat_alloc, strops_buf}
use pglite_build.Tools.Concat.{strcat_alloc_lem}

strcat_alloc_lem_example :
    strcat_alloc (zeros strops_buf) (codes "-D") (codes "db") ≡ some (codes "-Ddb")
strcat_alloc_lem_example =
    strcat_alloc_lem (zeros strops_buf) (codes "-D") (codes "db") refl ((λ e. cc), ((λ e. cc), tt))
      ((λ e. cc), ((λ e. cc), tt))
