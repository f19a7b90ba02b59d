-- ===== src/Contents/Fields/Tests.antt =====
-- An AttEuler block whose bytes are their places.
use rosaic.Prelude.{◌≡◌, refl, [], ◌∷◌}
use rosaic.Contents.{Memory}
use rosaic.Contents.Fields.{member, member_from, bytes_at}
use rosaic.Contents.Fields.Written.{
  single_att_euler, shape, without_header, written_out, callback_of, fields_of, visible_bytes,
  callback-block,
}
use rosaic.Structs.{sizeof, end_of, align_of}
use rosaic.Structs.Solutions.{att_euler_members, att_cov_euler_members}

abbrev places : Memory
places i = i

heading_behind_reserved : member places att_euler_members "heading" ≡ 20 ∷ 21 ∷ 22 ∷ 23 ∷ []
unfolding member_from bytes_at sizeof end_of align_of
heading_behind_reserved = refl

no_such_member : member places att_cov_euler_members "heading" ≡ []
unfolding member_from sizeof end_of align_of
no_such_member = refl

callback-block_example :
    (shape (callback_of single_att_euler places) ≡ without_header (fields_of single_att_euler))
    × (written_out (callback_of single_att_euler places) ≡ visible_bytes single_att_euler places)
callback-block_example = callback-block single_att_euler places
