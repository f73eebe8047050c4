-- ===== src/Naming/Tests.antt =====
-- Names of one instance.
use celily.Prelude.{
  ◌≤◌, ◌≡◌, refl, true, ◌||◌, none, ◌==◌, nat_eq, all, length, All, All-of_mem, all_sound,
}
use celily.Prelude.Text.{Text, codes, is_alphanumeric}
use celily.Naming.{sanitized_image_prefix, instance_name}
use celily.Naming.Bounds.{IsNameChar, length-instance_name-le}
use celily.Naming.Characters.{instance_name-All}

abbrev uuid : Text
uuid = codes "deadbeef-1234-5678-9abc-def012345678"

uuid-All : All IsNameChar uuid
uuid-All =
    All-of_mem IsNameChar uuid (λ c m. all_sound (λ c. is_alphanumeric c || c == b'-') hyphenated m)
  where
    hyphenated : all (λ c. is_alphanumeric c || c == b'-') uuid ≡ true
    hyphenated = refl

length-instance_name-le_example :
    length (instance_name (codes "/tmp/a b/c") none (codes "arch") uuid) ≤ 63
length-instance_name-le_example =
    length-instance_name-le (codes "/tmp/a b/c") none (codes "arch") uuid

instance_name-All_example :
    All IsNameChar (instance_name (codes "/tmp/a b/c") none (codes "arch") uuid)
instance_name-All_example = instance_name-All (codes "/tmp/a b/c") none (codes "arch") uuid uuid-All

named :
    instance_name (codes "/tmp/a  b/c") none (codes "arch") uuid ≡ codes "arch-tmp-a-b-c-deadbeef"
unfolding instance_name sanitized_image_prefix
named = refl
