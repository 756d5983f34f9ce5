-- ===== src/Tracking/Geometry.antt =====
-- The box arithmetic of backend/src/argus/vision/track_lifecycle.py.
use vision.Common.{ℕ, Option, some, List, ◌∷◌, max, if◌then◌else◌}
use vision.Common.Float.{
  Floats, Float, ◌+◌, ◌-◌, ◌*◌, ◌/◌, zero_float, one_float, min_float, max_float,
}
use vision.Detection.{BoundingBox}

module _ ⦃fl : Floats⦄ where
  intersection_of : BoundingBox → BoundingBox → Float
  intersection_of left right =
      let width = max_float zero_float (min_float left.2 right.2 - max_float left.0 right.0) in
      let height = max_float zero_float (min_float left.3 right.3 - max_float left.1 right.1) in
      width * height

  area_of : BoundingBox → Float
  area_of box = max_float zero_float (box.2 - box.0) * max_float zero_float (box.3 - box.1)

  unfoldable pub iou : BoundingBox → BoundingBox → Float
  unfolding intersection_of area_of
  iou left right =
      let intersection = intersection_of left right in
      if fl.le intersection zero_float
      then zero_float
      else (let union = area_of left + area_of right - intersection in
          if fl.lt zero_float union then intersection / union else zero_float)

  unfoldable pub center_distance_ratio : BoundingBox → BoundingBox → Float
  center_distance_ratio left right =
      let two = fl.decimal 2 0 in
      let left_width = max_float one_float (left.2 - left.0) in
      let left_height = max_float one_float (left.3 - left.1) in
      let right_width = max_float one_float (right.2 - right.0) in
      let right_height = max_float one_float (right.3 - right.1) in
      let distance =
        fl.hypot ((left.0 + left_width / two) - (right.0 + right_width / two))
          ((left.1 + left_height / two) - (right.1 + right_height / two)) in
      let reference =
        max_float
          (max_float (max_float (max_float left_width left_height) right_width) right_height)
          one_float in
      distance / reference

  -- `min(max(0.0, v), limit)`
  unfoldable pub clamp_to : Float → Float → Float
  clamp_to limit v = min_float (max_float zero_float v) limit

  -- The part of `_clamp_bbox` that a frame shape of at least two entries switches on.
  unfoldable pub clamp_to_frame : BoundingBox → Option (List ℕ) → BoundingBox
  unfolding clamp_to
  clamp_to_frame box (some (rows ∷ columns ∷ _)) =
      let height = fl.of_nat (max 1 rows) in
      let width = fl.of_nat (max 1 columns) in
      (clamp_to width box.0, clamp_to height box.1, clamp_to width box.2, clamp_to height box.3)
  clamp_to_frame box _ = box

  -- Corners in order.
  unfoldable pub order_corners : BoundingBox → BoundingBox
  order_corners box =
      let flip_x = fl.lt box.2 box.0 in
      let flip_y = fl.lt box.3 box.1 in
      (
        if flip_x then box.2 else box.0,
        if flip_y then box.3 else box.1,
        if flip_x then box.0 else box.2,
        if flip_y then box.1 else box.3,
      )

  unfoldable pub clamp_bbox : BoundingBox → Option (List ℕ) → BoundingBox
  unfolding clamp_to_frame order_corners
  clamp_bbox box frame_shape = order_corners (clamp_to_frame box frame_shape)
