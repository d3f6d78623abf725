-- ===== src/Tests/Objects.antt =====
-- Objects that are made, printed and released.
use ifj.Prelude.{ℕ, ◌≡◌, refl, [], ◌∷◌, codes, Option, none, ok, err, null_pointer}
use ifj.Objects.{Memory, string_new, object_inspect}
use ifj.Objects.Lifetime.{Given, string, new, text_of, Lives, object_free-new}
use ifj.Objects.Full.{string_new-full}

abbrev no_room : Memory
no_room = record { room = 0; blocks = none ∷ [] }

abbrev one_block : Memory
one_block = record { room = 1; blocks = none ∷ [] }

abbrev two_blocks : Memory
two_blocks = record { room = 2; blocks = none ∷ [] }

object_free-new_example :
    Lives (new (string (codes "ifj"))) two_blocks (text_of (string (codes "ifj")))
object_free-new_example = object_free-new (string (codes "ifj")) two_blocks 0 refl

string_new-full_example :
    ((v : Given) → new v no_room ≡ ok (none, no_room))
    × ((p : Option ℕ) × ((g : Memory) × (string_new (codes "ifj") one_block ≡ ok (p, g))
          × (object_inspect p g ≡ err null_pointer)))
string_new-full_example = string_new-full (codes "ifj") no_room one_block refl refl
