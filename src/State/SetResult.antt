-- ===== src/State/SetResult.antt =====
-- otaStateSetResult.
use alientek.Prelude.{
  ◌≤◌, ◌<◌, none, some, ◌≡◌, ◌≢◌, ◌⊎◌, inl, inr, arith, leb, Bool-cases, ◌||◌, length, All, Bytes,
}
use alientek.State.{OtaState, IsState, set_result}

-- With texts free of bytes 0, otaStateSetResult gives exactly this: if each text with its
-- terminator fits its array, a valid state with the three texts in it and all other fields as they
-- were; if one does not, the refusal, and no field is written.
pub set_result_fits :
    (s : OtaState) (phase result detail : Bytes)
    → IsState s
    → All (λ c. c ≢ 0) phase
    → All (λ c. c ≢ 0) result
    → All (λ c. c ≢ 0) detail
    → ((length phase < 32)
        × (length result < 16)
        × (length detail < 256)
        × (set_result s phase result detail
            ≡ some (record s { phase = phase; result = result; detail = detail }))
        × IsState (record s { phase = phase; result = result; detail = detail }))
      ⊎ (((32 ≤ length phase) ⊎ ((16 ≤ length result) ⊎ (256 ≤ length detail)))
          × (set_result s phase result detail ≡ none))
unfolding set_result
set_result_fits s phase result detail h p r d =
    elim (Bool-cases (leb 32 (length phase) || leb 16 (length result) || leb 256 (length detail))) [
      | inl long ↦ inr (ground arith, rw long)
      | inr short ↦
          let a : length phase < 32 = ground arith in
          let b : length result < 16 = ground arith in
          let c : length detail < 256 = ground arith in
          inl (
            a,
            b,
            c,
            rw short,
            record {
              request_id_fits = h.request_id_fits;
              version_fits = h.version_fits;
              target_slot_fits = h.target_slot_fits;
              phase_fits = (a, p);
              result_fits = (b, r);
              detail_fits = (c, d);
              auto_reboot_fits = h.auto_reboot_fits;
            },
          )
    ]
