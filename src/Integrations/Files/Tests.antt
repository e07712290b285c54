-- ===== src/Integrations/Files/Tests.antt =====
-- The filesystem integration on a small tree, and each theorem at a concrete input.
use tito_os.Prelude.{true, false, [], ◌∷◌, ◌≡◌, ◌==◌, refl, All, arith, Bool-cases, inl, inr}
use tito_os.Errors.{ok, err, file_fault, escapes, cannot, is_directory, too_large}
use tito_os.Integrations.Folders.{
  lookup, size, Entries, end, entry, directory, file, symlink, text, binary,
}
use tito_os.Integrations.Files.{FileSystem, parts}
use tito_os.Integrations.Files.Operations.{
  newlines, read_text, write_text, exists, reading, writing, appending, listing, testing, deleting,
  read, wrote, names, answer, perform,
}
use tito_os.Integrations.Files.Walking.{node_at}
use tito_os.Integrations.Files.Contents.{contents}
use tito_os.Integrations.Files.Refinement.{effect, contents-perform}
use tito_os.Integrations.Files.Sandbox.{crossing, walked}
use tito_os.Integrations.Files.Links.{perform-crossing}
use tito_os.Integrations.Files.Limits.{IsLimited, perform-IsLimited}
use tito_os.Integrations.Files.Succeeding.{free, read_text-write_text}
use tito_os.Integrations.Files.Names.{is_name, parts-is_name}

abbrev box : FileSystem
box = record { name = "files"; root = "/srv"; read_only = false; max_bytes = 8 }

-- notes/a.txt, a link to the world outside, and a file that is not text
abbrev tree : Entries
tree =
    entry "notes" (directory (entry "a.txt" (file (text "abc")) end))
      (entry "out" (symlink "/etc") (entry "blob" (file (binary 3)) end))

-- what each operation answers on the tree
runs :
    (perform box (reading "notes//./a.txt") tree ≡ (ok (read "abc"), tree))
    × (perform box (reading "out/passwd") tree
        ≡ (err (file_fault "files" escapes "read_text"), tree))
    × (perform box (reading "notes") tree
        ≡ (err (file_fault "files" (cannot is_directory) "read_text"), tree))
    × ((perform box (writing "new/b" "hi") tree).0 ≡ ok (wrote 2))
    × ((perform box (writing "../b" "hi") tree).0 ≡ err (file_fault "files" escapes "write_text"))
    × ((perform box (appending "blob" "abcdef") tree).0
        ≡ err (file_fault "files" too_large "append_text"))
    × ((perform box (listing "notes") tree).0 ≡ ok (names ("notes/a.txt" ∷ [])))
    × ((perform box (listing ".") tree).0 ≡ ok (names ("blob" ∷ "notes" ∷ "out" ∷ [])))
    × ((perform box (testing "blob/x") tree).0 ≡ ok (answer false))
    × ((perform box (deleting "blob" true) tree).0 ≡ ok (answer true))
    × (newlines false "a\r\nb\rc\n" ≡ "a\nb\nc\n")
unfolding perform
runs = (refl, refl, refl, refl, refl, refl, refl, refl, refl, refl, refl)

contents-perform_example :
    contents (perform box (appending "notes/a.txt" "de") tree).1
    ≡ effect box
        (appending "notes/a.txt" "de")
        (perform box (appending "notes/a.txt" "de") tree).0
        (contents tree)
contents-perform_example = contents-perform box tree (appending "notes/a.txt" "de")

perform-crossing_example :
    perform box (testing "out/passwd") tree ≡ (err (file_fault "files" escapes "exists"), tree)
unfolding parts crossing walked
perform-crossing_example =
    perform-crossing box tree "out" ("passwd" ∷ []) (testing "out/passwd") refl refl refl

abbrev shelf : Entries
shelf = entry "a" (file (text "abc")) end

shelf-IsLimited : IsLimited box shelf
unfolding IsLimited contents node_at lookup size
shelf-IsLimited [] = tt
shelf-IsLimited (p ∷ []) = elim (Bool-cases ("a" == p)) [
  | inl same ↦ rw (lookup, same) (omega arith)
  | inr other ↦ rw (lookup, other) tt
]
shelf-IsLimited (p ∷ q ∷ qs) = elim (Bool-cases ("a" == p)) [
  | inl same ↦ rw (contents, node_at, lookup, same) tt
  | inr other ↦ rw (contents, node_at, lookup, other) tt
]

perform-IsLimited_example : IsLimited box (perform box (appending "a" "defghi") shelf).1
perform-IsLimited_example = perform-IsLimited box (appending "a" "defghi") shelf shelf-IsLimited

read_text-write_text_example :
    (left : Entries) × (write_text box "new/b" "h\r\n" tree ≡ (ok 3, left))
    × (exists box "new/b" left ≡ (ok true, left))
    × (read_text box "new/b" left ≡ (ok "h\n", left))
unfolding parts free newlines
read_text-write_text_example =
    read_text-write_text box "new/b" "h\r\n" "new" ("b" ∷ []) tree refl (omega arith) (λ o. refl)
      refl

parts-is_name_example : All (λ s. is_name s ≡ true) ("notes" ∷ "a.txt" ∷ [])
unfolding parts
parts-is_name_example = parts-is_name box "notes//./a.txt" "exists" ("notes" ∷ "a.txt" ∷ []) refl
