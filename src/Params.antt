-- ===== src/Params.antt =====
-- src/params.rs: the constants of the profile MQOM2-L1-gf16-short-r5.
use mqom_rs.Base.{ℕ, ◌+◌, ◌-◌, ◌*◌, ◌/◌, ◌<<<◌, ◌≡◌, refl}

abbrev pub security_bits : ℕ
security_bits = 128

abbrev pub seed_size : ℕ
seed_size = security_bits / 8

abbrev pub salt_size : ℕ
salt_size = security_bits / 8

abbrev pub digest_size : ℕ
digest_size = 2 * security_bits / 8

abbrev pub mq_n : ℕ
mq_n = 56

abbrev pub mq_m : ℕ
mq_m = 56

abbrev pub base_field_bits : ℕ
base_field_bits = 4

abbrev pub ext_field_bits : ℕ
ext_field_bits = 16

abbrev pub mu : ℕ
mu = ext_field_bits / base_field_bits

abbrev pub tau : ℕ
tau = 12

abbrev pub nb_evals_log : ℕ
nb_evals_log = 11

abbrev pub nb_evals : ℕ
nb_evals = 1 <<< nb_evals_log

abbrev pub grinding_bits : ℕ
grinding_bits = 8

abbrev pub eta : ℕ
eta = security_bits / ext_field_bits

abbrev pub public_key_size : ℕ
public_key_size = 2 * seed_size + mq_m / mu * ext_field_bits / 8

abbrev pub secret_key_size : ℕ
secret_key_size = public_key_size + mq_n * base_field_bits / 8

abbrev pub opening_size : ℕ
opening_size =
    tau * (mq_n * base_field_bits / 8 - seed_size + nb_evals_log * seed_size + digest_size)

abbrev pub signature_size : ℕ
signature_size =
    4 + tau * (eta * mu) * base_field_bits / 8 + salt_size + 2 * digest_size + opening_size

-- The assertions of the file.
sizes : (public_key_size ≡ 60) × (secret_key_size ≡ 88) × (signature_size ≡ 2916)
sizes = (refl, refl, refl)
