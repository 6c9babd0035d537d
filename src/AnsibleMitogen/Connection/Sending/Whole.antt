-- ===== src/AnsibleMitogen/Connection/Sending/Whole.antt =====
-- mitogen-0.2.9/ansible_mitogen/connection.py: files that are sent are sent whole.
use ansible_course.Base.{
  if◌then◌else◌, ◌&&◌, leb, ℕ, zero, suc, ◌<◌, true, false, Text, Option, none, some, [], ◌∷◌, ◌≡◌,
  ◌⊎◌, inl, inr, refl, ap, arith, nat_key, ◌==◌, Bool-cases,
}
use ansible_course.Base.Lists.{length}
use ansible_course.AnsibleMitogen.Connection.Sending.{
  Stat, stat_error, stated, write_path, register, transfer, Put, asks, file_not_found, os_error,
  not_regular, unbound_local, take, put_file,
}

take-short : (n : ℕ) (s : Text) → length (take n s) < n → take n s ≡ s
unfolding take
take-short zero s h = absurd (omega (arith, h))
take-short (suc n) [] h = refl
take-short (suc n) (c ∷ s) h = ap (λ t. c ∷ t) (take-short n s (omega (arith, h)))

length-take : (n : ℕ) (s : Text) → length s < n → length (take n s) ≡ length s
unfolding take
length-take zero s h = absurd (omega (arith, h))
length-take (suc n) [] h = refl
length-take (suc n) (c ∷ s) h = ap suc (length-take n s (omega (arith, h)))

-- What is asked of the target, for a file with this `stat` and content.
abbrev pub Sends : ℕ → Stat → Option Text → Put → Type 0
Sends limit (stated true size mode) (some content) p = p ≡ (
    if leb size limit && (length content == size)
    then asks (write_path content mode ∷ [])
    else asks (register ∷ transfer ∷ []))
Sends limit (stated true size mode) none p =
    p ≡ (if leb size limit then unbound_local else asks (register ∷ transfer ∷ []))
Sends limit (stated false size mode) content p = p ≡ not_regular
Sends limit (stat_error errno) content p = (p ≡ file_not_found) ⊎ (p ≡ os_error)

-- `put_file` sends the whole content with the file's mode, or has the target fetch it from the registered
-- path: the first exactly if the file was small by its `stat` and had that size when it was read. It
-- sends nothing of what is no regular file, or cannot be stated; a small file that cannot be read
-- raises `UnboundLocalError`.
pub put_file-Sends :
    (enoent limit : ℕ) (st : Stat) (content : Option Text)
    → Sends limit st content (put_file enoent limit st content)
unfolding put_file
put_file-Sends enoent limit (stat_error errno) content = elim (Bool-cases (errno == enoent)) [
  | inl e ↦ inl (rw e refl)
  | inr e ↦ inr (rw e refl)
]
put_file-Sends enoent limit (stated false size mode) content = refl
put_file-Sends enoent limit (stated true size mode) none = refl
put_file-Sends enoent limit (stated true size mode) (some content) =
    elim (Bool-cases (leb (length content) limit)) [
      | inl short ↦
          ground (arith, short, length-take (suc limit) content, take-short (suc limit) content)
      | inr long ↦ ground (arith, long, take-short (suc limit) content)
    ]
