-- ===== src/Integrations/Folders/Laws.antt =====
-- What a look at a directory finds after each change of its entries.
use tito_os.Prelude.{String, none, some, ◌==◌, if◌then◌else◌, ◌≡◌, refl, arith, eq_iff}
use tito_os.Integrations.Folders.{Node, Entries, end, entry, lookup, put, remove}

pub lookup-put :
    (name other : String) (node : Node) (es : Entries)
    → lookup other (put name node es) ≡ (if name == other then some node else lookup other es)
unfolding lookup put
lookup-put name other node end = refl
lookup-put name other node (entry k n es) =
    ground (arith, eq_iff k name, eq_iff k other, eq_iff name other, lookup-put name other node es)

pub lookup-remove :
    (name other : String) (es : Entries)
    → lookup other (remove name es) ≡ (if name == other then none else lookup other es)
unfolding lookup remove
lookup-remove name other end = ground arith
lookup-remove name other (entry k n es) =
    ground (arith, eq_iff k name, eq_iff k other, eq_iff name other, lookup-remove name other es)

pub put_same :
    (name : String) (node : Node) (es : Entries)
    → lookup name es ≡ some node
    → put name node es ≡ es
unfolding lookup put
put_same name node end h = absurd (ground arith)
put_same name node (entry k n es) h = ground (arith, eq_iff k name, put_same name node es)
