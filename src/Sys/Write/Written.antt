-- ===== src/Sys/Write/Written.antt =====
-- What sys_write hands to a device: the caller's bytes in order, however they are cut into chunks.
use soa_fib.Base.{
  ℕ, zero, suc, ◌+◌, ◌-◌, ◌<◌, ◌≡◌, refl, ap, subst, ◌∙◌, ltb, arith, Bool-cases, inl, inr, List,
  [], ◌∷◌, ◌++◌,
}
use soa_fib.Base.Int.{ℤ, pos}
use soa_fib.Utils.{copy_data}
use soa_fib.Utils.Copy.{copy_data_lem}
use soa_fib.Sys.Write.{
  Devices, Device, to_console, to_debug, bytes_from, write_device, write_chunk, write_chunks,
  write_all,
}

-- what has been handed to a device
unfoldable pub handed : Device → Devices → List ℕ
handed to_console d = d.console
handed to_debug d = d.debug

unfoldable pub other : Device → Device
other to_console = to_debug
other to_debug = to_console

bytes_from_same :
    (n i j : ℕ) (f g : ℕ → ℕ)
    → ((k : ℕ) → k < n → f (i + k) ≡ g (j + k))
    → bytes_from n i f ≡ bytes_from n j g
unfolding bytes_from
bytes_from_same zero i j f g h = refl
bytes_from_same (suc n) i j f g h =
    let head : f i ≡ g j = ap f (omega arith) ∙ h 0 (omega arith) ∙ ap g (omega arith) in
    let tail =
      bytes_from_same n (i + 1) (j + 1) f g
        (λ k lt. ap f (omega arith) ∙ h (k + 1) (omega (arith, lt)) ∙ ap g (omega arith)) in
    ap (λ x. x ∷ bytes_from n (i + 1) f) head ∙ ap (λ l. g j ∷ l) tail

bytes_from_append :
    (n m i : ℕ) (f : ℕ → ℕ) → bytes_from n i f ++ bytes_from m (i + n) f ≡ bytes_from (n + m) i f
unfolding bytes_from
bytes_from_append zero m i f =
    let here : i + 0 ≡ i = omega arith in let all : 0 + m ≡ m = omega arith in rw (here, all) refl
bytes_from_append (suc n) m i f =
    let here : i + suc n ≡ i + 1 + n = omega arith in
    let all : suc n + m ≡ suc (n + m) = omega arith in
    rw (here, all) (ap (λ l. f i ∷ l) (bytes_from_append n m (i + 1) f))

append_assoc : (xs ys zs : List ℕ) → (xs ++ ys) ++ zs ≡ xs ++ (ys ++ zs)
append_assoc [] ys zs = refl
append_assoc (x ∷ xs) ys zs = ap (λ l. x ∷ l) (append_assoc xs ys zs)

copied :
    (size buffer : ℕ) (user to : ℕ → ℕ) (k : ℕ)
    → k < size
    → copy_data size (λ i. user (buffer + i)) to (0 + k) ≡ user (buffer + k)
copied size buffer user to k lt =
    ground (arith, lt, copy_data_lem size (λ i. user (buffer + i)) to k)

write_chunk-handed :
    (to : Device) (user : ℕ → ℕ) (buffer size : ℕ) (d : Devices)
    → handed to (write_chunk to user buffer size d) ≡ handed to d ++ bytes_from size buffer user
unfolding write_chunk write_device handed other
write_chunk-handed to_console user buffer size d =
    ap (λ l. d.console ++ l)
      (bytes_from_same size 0 buffer _ user (copied size buffer user d.buffer_k))
write_chunk-handed to_debug user buffer size d =
    ap (λ l. d.debug ++ l)
      (bytes_from_same size 0 buffer _ user (copied size buffer user d.buffer_k))

write_chunk-other :
    (to : Device) (user : ℕ → ℕ) (buffer size : ℕ) (d : Devices)
    → handed (other to) (write_chunk to user buffer size d) ≡ handed (other to) d
unfolding write_chunk write_device handed other
write_chunk-other to_console user buffer size d = refl
write_chunk-other to_debug user buffer size d = refl

-- what the loop ends with: nothing is left, and the device has the bytes
Delivered : Device → (ℕ → ℕ) → ℕ → ℕ → Devices → ℕ × Devices → Type 0
Delivered to user buffer n d (left, e) =
    (left ≡ 0)
    × (handed to e ≡ handed to d ++ bytes_from n buffer user)
    × (handed (other to) e ≡ handed (other to) d)

write_chunk-Delivered :
    (to : Device) (user : ℕ → ℕ) (buffer n m : ℕ) (d : Devices) (r : ℕ × Devices)
    → Delivered to user (buffer + n) m (write_chunk to user buffer n d) r
    → Delivered to user buffer (n + m) d r
unfolding Delivered
write_chunk-Delivered to user buffer n m d (left, e) (z, h, o) = (
  z,
  h
      ∙ ap (λ l. l ++ bytes_from m (buffer + n) user) (write_chunk-handed to user buffer n d)
      ∙ append_assoc (handed to d) (bytes_from n buffer user) (bytes_from m (buffer + n) user)
      ∙ ap (λ l. handed to d ++ l) (bytes_from_append n m buffer user),
  o ∙ write_chunk-other to user buffer n d,
)

append_nil : (xs : List ℕ) → xs ≡ xs ++ []
append_nil [] = refl
append_nil (x ∷ xs) = ap (λ l. x ∷ l) (append_nil xs)

write_chunks-Delivered :
    (fuel : ℕ) (to : Device) (user : ℕ → ℕ) (buffer left : ℕ) (d : Devices)
    → left < fuel
    → Delivered to user buffer left d (write_chunks fuel to user buffer left d)
unfolding write_chunks bytes_from Delivered
write_chunks-Delivered zero to user buffer left d lt = absurd (omega (arith, lt))
write_chunks-Delivered (suc fuel) to user buffer left d lt = elim (Bool-cases (ltb 256 left)) [
  | inl e ↦
      let d1 = write_chunk to user buffer 256 d in
      let done = write_chunks fuel to user (buffer + 256) (left - 256) d1 in
      let more : 256 < left = ground (arith, e) in
      let rest =
        write_chunks-Delivered fuel to user (buffer + 256) (left - 256) d1
          (omega (arith, more, lt)) in
      let whole : 256 + (left - 256) ≡ left = omega (arith, more) in
      let all = write_chunk-Delivered to user buffer 256 (left - 256) d _ rest in
      rw e (subst (λ n. Delivered to user buffer n d done) whole all)
  | inr a ↦ elim (Bool-cases (ltb 0 left)) [
    | inl e ↦
        rw (a, e)
          (refl, write_chunk-handed to user buffer left d, write_chunk-other to user buffer left d)
    | inr e ↦
        let none : 0 ≡ left = ground (arith, e) in
        rw (a, e) (subst (λ n. Delivered to user buffer n d (n, d)) none (refl, append_nil _, refl))
  ]
]

-- the result of a call that has written all of its bytes to the one device
unfoldable pub Written : Device → (ℕ → ℕ) → ℕ → ℕ → Devices → ℤ × Devices → Type 0
Written to user buffer n d (r, e) =
    (r ≡ pos n)
    × (handed to e ≡ handed to d ++ bytes_from n buffer user)
    × (handed (other to) e ≡ handed (other to) d)

pub write_all-Written :
    (to : Device) (user : ℕ → ℕ) (buffer n : ℕ) (d : Devices)
    → Written to user buffer n d (write_all to user buffer n d)
unfolding write_all Written Delivered
write_all-Written to user buffer n d =
    let (z, h, o) = write_chunks-Delivered (n + 1) to user buffer n d (omega arith) in
    (ap (λ l. pos (n - l)) z ∙ ap pos (omega arith), h, o)
