-- ===== src/Trust/Keys.antt =====
-- The keys `<device>:<intent>` of devices and intents.
use istream.Prelude.{
  String, Bool, true, false, ◌≡◌, refl, ◌↔◌, str_eq, eq_iff, arith, ◌&&◌, text_append, ap,
}
use Prim.Native.String.{count}
use text.Mathlib.TextLemmas.{append_inj, append_cancel_right, length-append}
use istream.Contracts.Connectivity.{ConnectionIntent, view_remote, share_local}
use istream.Trust.{key}

count_eq :
    (a b s t : String) → text_append a s ≡ text_append b t → count s ≡ count t → count a ≡ count b
count_eq a b s t e same = omega (arith, ap count e, length-append a s, length-append b t)

abbrev pub same_intent : ConnectionIntent → ConnectionIntent → Bool
same_intent view_remote view_remote = true
same_intent share_local share_local = true
same_intent _ _ = false

pub key_injective : (a b : String) (i j : ConnectionIntent) → key a i ≡ key b j → (a ≡ b) × (i ≡ j)
unfolding key
key_injective a b view_remote view_remote e = (append_cancel_right a b _ e, refl)
key_injective a b share_local share_local e = (append_cancel_right a b _ e, refl)
key_injective a b view_remote share_local e =
    let clash = (append_inj e (count_eq a b _ _ e refl)).1 in cc ((eq_iff _ _).1 clash)
key_injective a b share_local view_remote e =
    let clash = (append_inj e (count_eq a b _ _ e refl)).1 in cc ((eq_iff _ _).1 clash)

same_intent_iff : (i j : ConnectionIntent) → (same_intent i j ≡ true) ↔ (i ≡ j)
same_intent_iff view_remote view_remote = ground arith
same_intent_iff _ _ = ground arith

-- The test of two keys is the test of their parts.
pub eq-key :
    (a b : String) (i j : ConnectionIntent)
    → str_eq (key a i) (key b j) ≡ (str_eq a b && same_intent i j)
eq-key a b i j =
    ground
      (arith, eq_iff (key a i) (key b j), eq_iff a b, same_intent_iff i j, key_injective a b i j)
