-- ===== src/VarRef/Tests.antt =====
-- Runs of the packed references, and their theorems at concrete inputs.
use mcu_debug.Prelude.{◌%◌, ◌^◌, true, negsuc, ◌≡◌, refl}
use mcu_debug.VarRef.{
  encode_reference, decode_reference, encode_var_reference, is_var_ref_global_or_static, to_int32,
  shift_left, to_uint32,
}
use mcu_debug.VarRef.Codec.{decode_reference-encode_reference}

thread_nine_is_negative : encode_reference 9 3 2 ≡ negsuc 1879048141
unfolding encode_reference to_int32 shift_left
thread_nine_is_negative = refl

-- Thread 17 has the references of thread 1.
thread_collides : encode_reference 17 3 2 ≡ encode_reference 1 3 2
unfolding encode_reference to_int32 shift_left
thread_collides = refl

global_kind : is_var_ref_global_or_static (encode_var_reference 0 0 0) ≡ true
unfolding is_var_ref_global_or_static encode_var_reference encode_reference to_int32 shift_left
    to_uint32
global_kind = refl

decode_reference-encode_reference_example :
    decode_reference (encode_reference 17 3 2) ≡ (17 % 16, 3 % 2 ^ 24, 2 % 16)
decode_reference-encode_reference_example = decode_reference-encode_reference 17 3 2
